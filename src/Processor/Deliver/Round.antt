-- ===== src/Processor/Deliver/Round.antt =====
-- One packet of a set: the set takes it in, or it completes the set.
use shreds.Base.{
  ℕ, ◌≤◌, ◌≡◌, refl, sym, ◌∙◌, subst, Bool, false, contains, if◌then◌else◌, pair_eq, some, List,
  ◌∷◌, length, ok, ltb, arith,
}
use shreds.Base.Assoc.{Distinct, insert-Distinct, lookup-insert_self}
use shreds.Ledger.{Ledger}
use shreds.Shred.Header.{is_shred_data, get_shred_index, get_fec_set_index}
use shreds.Processor.State.{FecSet, ShredProcessor, Host, is_fec_set_complete}
use shreds.Processor.Process.{process_fec_set}
use shreds.Processor.Collect.{or_new, absorb, count_shred, insert, collect, min_shred_length}
use shreds.Processor.Collect.Unique.{marked}
use shreds.Processor.Deliver.Hold.{Holds, SetHolds}

module _ {Shred ShredId Entry : Type 0} (l : Ledger Shred ShredId) (host : Host Entry) where
  -- A packet with an id of the slot that is not among those seen.
  abbrev pub IsNew : ℕ → List ShredId → List ℕ → ShredId → Type 0
  IsNew slot seen raw id =
      (l.get_shred_id raw ≡ some id)
      × (l.id_slot id ≡ slot)
      × (contains ⦃eq = l.id_eq⦄ seen id ≡ false)

  -- What `insert` hands to the test for completeness.
  abbrev pub counted :
      ShredProcessor ShredId Entry
      → ShredId
      → List ℕ
      → ℕ × ℕ
      → FecSet
      → ShredProcessor ShredId Entry
  counted self id raw key fec_set =
      count_shred (marked l host self id) (is_shred_data l raw) key fec_set

  insert_taken :
      (self : ShredProcessor ShredId Entry) (key : ℕ × ℕ) (raw : List ℕ) (index : ℕ)
      (fec_set : FecSet)
      → get_shred_index l raw ≡ ok index
      → get_fec_set_index l raw ≡ ok key.1
      → absorb l host self key index raw ≡ ok fec_set
      → insert l host self key.0 raw ≡ (
          let next = count_shred self (is_shred_data l raw) key fec_set in
          if is_fec_set_complete fec_set then process_fec_set l host next key else ok next)
  unfolding insert
  insert_taken self key raw index fec_set q r a = rw (q, r, a) refl

  pub collect_taken :
      (self : ShredProcessor ShredId Entry) (key : ℕ × ℕ) (raw : List ℕ) (id : ShredId)
      → min_shred_length ≤ length raw
      → IsNew key.0 self.uniqueness raw id
      → collect l host self raw ≡ insert l host (marked l host self id) key.0 raw
  unfolding collect
  collect_taken self key raw id long (p, s, fresh) =
      let enough : ltb (length raw) min_shred_length ≡ false = ground arith in
      rw (enough, p, fresh, s) refl

  -- A packet that the set takes in, up to the test for completeness.
  pub collect_absorbed :
      (self : ShredProcessor ShredId Entry) (key : ℕ × ℕ) (raw : List ℕ) (id : ShredId) (index : ℕ)
      (fec_set : FecSet)
      → min_shred_length ≤ length raw
      → IsNew key.0 self.uniqueness raw id
      → get_shred_index l raw ≡ ok index
      → get_fec_set_index l raw ≡ ok key.1
      → absorb l host self key index raw ≡ ok fec_set
      → collect l host self raw ≡ (
          if is_fec_set_complete fec_set
          then process_fec_set l host (counted self id raw key fec_set) key
          else ok (counted self id raw key fec_set))
  unfolding absorb
  collect_absorbed self key raw id index fec_set long new q r a =
      collect_taken self key raw id long new
      ∙ insert_taken (marked l host self id) key raw index fec_set q r a

  -- Where the loop stands: the set holds what came.
  pub record At (n m : ℕ) (key : ℕ × ℕ) (self : ShredProcessor ShredId Entry) (datas : List Shred)
      (coded : Bool) : Type 0 where
    pub distinct : Distinct self.fec_sets
    pub holds : SetHolds l host n m key self datas coded

  counted-At :
      (n m : ℕ) (key : ℕ × ℕ) (self : ShredProcessor ShredId Entry) (datas next : List Shred)
      (coded coded' : Bool) (id : ShredId) (raw : List ℕ) (fec_set : FecSet)
      → At n m key self datas coded
      → Holds l n m next coded' fec_set
      → At n m key (counted self id raw key fec_set) next coded'
  unfolding count_shred
  counted-At n m key self datas next coded coded' id raw fec_set at h = record {
    distinct = insert-Distinct key fec_set self.fec_sets at.distinct;
    holds =
        subst (λ o. Holds l n m next coded' (or_new o))
          (sym (lookup-insert_self key fec_set self.fec_sets)) h;
  }

  -- A round that leaves the set incomplete.
  pub collect_quiet :
      (n m : ℕ) (key : ℕ × ℕ) (self : ShredProcessor ShredId Entry) (datas next : List Shred)
      (coded coded' : Bool) (id : ShredId) (raw : List ℕ) (index : ℕ) (fec_set : FecSet)
      → At n m key self datas coded
      → min_shred_length ≤ length raw
      → IsNew key.0 self.uniqueness raw id
      → get_shred_index l raw ≡ ok index
      → get_fec_set_index l raw ≡ ok key.1
      → absorb l host self key index raw ≡ ok fec_set
      → Holds l n m next coded' fec_set
      → is_fec_set_complete fec_set ≡ false
      → (later : ShredProcessor ShredId Entry) × (collect l host self raw ≡ ok later)
        × (later.uniqueness ≡ id ∷ self.uniqueness)
        × (later.sent ≡ self.sent)
        × At n m key later next coded'
  unfolding count_shred
  collect_quiet n m key self datas next coded coded' id raw index fec_set at long new q r a h
        open_set =
      (
        counted self id raw key fec_set,
        collect_absorbed self key raw id index fec_set long new q r a ∙ rw open_set refl,
        refl,
        refl,
        counted-At n m key self datas next coded coded' id raw fec_set at h,
      )
