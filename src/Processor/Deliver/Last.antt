-- ===== src/Processor/Deliver/Last.antt =====
-- The packet that completes a set: the batch is sent, and the set leaves the map.
use shreds.Base.{
  ℕ, ◌+◌, ◌≤◌, ◌≡◌, refl, ◌∙◌, Bool, true, none, List, [], ◌∷◌, ◌++◌, length, ok, ==_refl, nat_eq,
  pair_eq, arith,
}
use shreds.Base.Assoc.{
  lookup, lookup-remove, lookup-insert_self, insert-Distinct, remove-Distinct, Distinct,
}
use shreds.Ledger.{Ledger}
use shreds.Shred.Header.{get_shred_index, get_fec_set_index}
use shreds.Processor.State.{EntriesWithMeta, FecSet, ShredProcessor, Host, is_fec_set_complete}
use shreds.Processor.Process.{finish, gather, decode, conclude}
use shreds.Processor.Process.Branches.{process_step}
use shreds.Processor.Collect.{absorb, count_shred, collect, min_shred_length}
use shreds.Processor.Deliver.Hold.{Holds}
use shreds.Processor.Deliver.Round.{IsNew, counted, collect_absorbed, At}

-- The batch was sent behind what was sent before, among at most `k` others, and the set is not in the map.
abbrev pub Delivers :
    {ShredId Entry : Type 0}
    → ℕ
    → ℕ × ℕ
    → List Entry
    → ShredProcessor ShredId Entry
    → ShredProcessor ShredId Entry
    → Type 0
Delivers {Entry = Entry} k key entries self last =
    ((earlier later : List (EntriesWithMeta Entry)) × (last.sent
        ≡ self.sent ++ (earlier ++ ((record { entries = entries; slot = key.0 }) ∷ later)))
      × (length earlier + length later ≤ k))
    × (lookup key last.fec_sets ≡ none)

module _ {Shred ShredId Entry : Type 0} (l : Ledger Shred ShredId) (host : Host Entry) where
  -- The batch is the next one sent, and the set is gone.
  abbrev pub Delivered :
      ShredProcessor ShredId Entry → ℕ × ℕ → List Entry → ShredProcessor ShredId Entry → Type 0
  Delivered start key entries next =
      (next.sent ≡ start.sent ++ (record { entries = entries; slot = key.0 } ∷ []))
      × (lookup key next.fec_sets ≡ none)

  conclude_ok :
      (self : ShredProcessor ShredId Entry) (key : ℕ × ℕ) (shreds : List Shred)
      (entries : List Entry)
      → 1 ≤ length shreds
      → decode l host shreds ≡ ok entries
      → conclude l host self key shreds ≡ ok (finish self key (length shreds) entries)
  unfolding conclude
  conclude_ok self key [] entries h d = absurd (omega arith)
  conclude_ok self key (shred ∷ shreds) entries h d = rw d refl

  pub collect_completes :
      (n m : ℕ) (key : ℕ × ℕ) (self : ShredProcessor ShredId Entry) (datas next : List Shred)
      (coded : Bool) (id : ShredId) (raw : List ℕ) (index : ℕ) (fec_set : FecSet)
      (sender : List Shred) (entries : List Entry)
      → At l host n m key self datas coded
      → min_shred_length ≤ length raw
      → IsNew l host key.0 self.uniqueness raw id
      → get_shred_index l raw ≡ ok index
      → get_fec_set_index l raw ≡ ok key.1
      → absorb l host self key index raw ≡ ok fec_set
      → Holds l n m next true fec_set
      → is_fec_set_complete fec_set ≡ true
      → gather l host fec_set ≡ ok sender
      → 1 ≤ length sender
      → decode l host sender ≡ ok entries
      → (last : ShredProcessor ShredId Entry) × (collect l host self raw ≡ ok last)
        × Delivered self key entries last
        × Distinct last.fec_sets
        × (last.uniqueness ≡ id ∷ self.uniqueness)
  unfolding count_shred finish
  collect_completes n m key self datas next coded id raw index fec_set sender entries at long new q
        r a h complete g some_data d =
      let self' = counted l host self id raw key fec_set in
      let here = lookup-insert_self key fec_set self.fec_sets in
      (
        finish self' key (length sender) entries,
        collect_absorbed l host self key raw id index fec_set long new q r a
            ∙ rw complete (
                process_step l host self' key fec_set sender here h.not_processed g
                ∙ conclude_ok self' key sender entries some_data d),
        (
          refl,
          lookup-remove key key self'.fec_sets
                (insert-Distinct key fec_set self.fec_sets at.distinct)
              ∙ rw (==_refl key) refl,
        ),
        remove-Distinct key self'.fec_sets (insert-Distinct key fec_set self.fec_sets at.distinct),
        refl,
      )
