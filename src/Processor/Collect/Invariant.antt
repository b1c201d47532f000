-- ===== src/Processor/Collect/Invariant.antt =====
-- What holds of the processor between two packets.
use shreds.Base.{
  ℕ, ◌+◌, ◌%◌, ◌≡◌, refl, sym, subst, ◌∙◌, Bool, false, Eq, nat_eq, pair_eq, contains, List, [],
  ◌∷◌, length, length-append, All, ok, Outcome-cases, arith, inl, inr,
}
use shreds.Base.Assoc.{Distinct, insert-Distinct, remove-Distinct, All-insert, All-remove}
use shreds.Base.Words.{u128_mod}
use shreds.Ledger.{Ledger}
use shreds.Shred.Header.{is_shred_data}
use shreds.Processor.State.{FecSet, ShredProcessor, Host, new}
use shreds.Processor.Process.{finish}
use shreds.Processor.Process.Branches.{Effect}
use shreds.Processor.Collect.{count_shred, collect, collect_all}
use shreds.Processor.Collect.Open.{IsOpen, absorb-IsOpen}
use shreds.Processor.Collect.Unique.{insert-Inserted, collect_cases, marked}

module _ {A : Type 0} ⦃e : Eq A⦄ where
  -- The ids of a set differ.
  abbrev pub AreUnique : List A → Type 0
  AreUnique [] = Unit {0}
  AreUnique (x ∷ xs) = (contains xs x ≡ false) × AreUnique xs

module _ {Shred ShredId Entry : Type 0} (l : Ledger Shred ShredId) (host : Host Entry) where
  -- Each packet that was taken in is counted once, as data or as coding; each success was sent.
  pub record Inv (self : ShredProcessor ShredId Entry) : Type 0 where
    pub keys : Distinct self.fec_sets
    pub sets : All (λ e. IsOpen e.1) self.fec_sets
    pub ids : AreUnique ⦃e = l.id_eq⦄ self.uniqueness
    pub collected :
        (self.total_collected_data + self.total_collected_coding) % u128_mod
        ≡ length self.uniqueness % u128_mod
    pub successes : self.fec_set_success ≡ length self.sent % u128_mod

  pub new-Inv : Inv new
  unfolding new
  new-Inv = record { keys = tt; sets = tt; ids = tt; collected = refl; successes = refl }

  finish-Inv :
      (self : ShredProcessor ShredId Entry) (key : ℕ × ℕ) (n : ℕ) (entries : List Entry)
      → Inv self
      → Inv (finish self key n entries)
  unfolding finish
  finish-Inv self key n entries v = record {
    keys = remove-Distinct key self.fec_sets v.keys;
    sets = All-remove (λ e. IsOpen e.1) key self.fec_sets v.sets;
    ids = v.ids;
    collected = v.collected;
    successes = omega (
      arith,
      length-append self.sent (record { entries = entries; slot = key.0 } ∷ []),
      v.successes,
    );
  }

  Effect-Inv :
      (self : ShredProcessor ShredId Entry) (key : ℕ × ℕ) (next : ShredProcessor ShredId Entry)
      → Inv self
      → Effect self key next
      → Inv next
  Effect-Inv self key next v (inl e) = subst Inv (sym e) v
  Effect-Inv self key next v (inr (inl e)) = subst Inv (sym e) (record {
    keys = v.keys;
    sets = v.sets;
    ids = v.ids;
    collected = v.collected;
    successes = v.successes;
  })
  Effect-Inv self key next v (inr (inr (n, entries, e))) =
      subst Inv (sym e) (finish-Inv self key n entries v)

  count_shred-Inv :
      (self : ShredProcessor ShredId Entry) (id : ShredId) (is_data : Bool) (key : ℕ × ℕ)
      (fec_set : FecSet)
      → Inv self
      → contains ⦃eq = l.id_eq⦄ self.uniqueness id ≡ false
      → IsOpen fec_set
      → Inv (count_shred (marked l host self id) is_data key fec_set)
  unfolding count_shred
  count_shred-Inv self id is_data key fec_set v fresh o = record {
    keys = insert-Distinct key fec_set self.fec_sets v.keys;
    sets = All-insert (λ e. IsOpen e.1) key fec_set self.fec_sets o v.sets;
    ids = (fresh, v.ids);
    collected = ground (arith, v.collected);
    successes = v.successes;
  }

  -- Collecting a packet, if it returns, keeps the invariant: the sets in the map have distinct keys and
  -- are open, the ids differ, and modulo 2^128 data and coding shreds together are as many as the ids,
  -- and the successes as many as the batches sent.
  pub collect-Inv :
      (self : ShredProcessor ShredId Entry) (raw : List ℕ) (next : ShredProcessor ShredId Entry)
      → Inv self
      → collect l host self raw ≡ ok next
      → Inv next
  collect-Inv self raw next v h = elim (collect_cases l host self raw) [
    | inl dropped ↦ subst Inv (ground (arith, dropped)) v
    | inr (id, (long, p, fresh), taken) ↦
        let (index, fec_index, fec_set, _, _, r, effect) =
          insert-Inserted l host (marked l host self id) (l.id_slot id) raw next (sym taken ∙ h) in
        let o =
          absorb-IsOpen l host (marked l host self id) (l.id_slot id, fec_index) index raw fec_set
            v.sets long r in
        Effect-Inv _ (l.id_slot id, fec_index) next
          (count_shred-Inv self id (is_shred_data l raw) (l.id_slot id, fec_index) fec_set v fresh
            o)
          effect
  ]

  -- Any sequence of packets that is collected without a panic keeps the invariant.
  pub collect_all-Inv :
      (raws : List (List ℕ)) (self next : ShredProcessor ShredId Entry)
      → Inv self
      → collect_all l host raws self ≡ ok next
      → Inv next
  unfolding collect_all
  collect_all-Inv [] self next v h = subst Inv (ground arith) v
  collect_all-Inv (raw ∷ raws) self next v h = elim (Outcome-cases (collect l host self raw)) [
    | inl (mid, p) ↦
        collect_all-Inv raws mid next (collect-Inv self raw mid v p) (ground (arith, p))
    | inr (inl (e, p)) ↦ absurd (ground (arith, p))
    | inr (inr p) ↦ absurd (ground (arith, p))
  ]
