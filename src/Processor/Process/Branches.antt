-- ===== src/Processor/Process/Branches.antt =====
-- The branches of `process_fec_set`.
use shreds.Base.{
  ℕ, ◌+◌, ◌%◌, ◌≡◌, ◌⊎◌, refl, ◌∙◌, subst, false, ◌==◌, if◌then◌else◌, nat_eq, pair_eq, none, some,
  List, [], ◌∷◌, ◌++◌, ◌≤◌, ap, sym, length, ok, err, panicked, Outcome-cases, Option-cases,
  Bool-cases, arith, inl, inr,
}
use mathlib.Core.List.{append-nil}
use shreds.Base.Assoc.{lookup, Distinct, lookup-remove}
use shreds.Base.Words.{u128_mod}
use shreds.Ledger.{Ledger}
use shreds.Shred.Entries.{EntriesError}
use shreds.Processor.State.{EntriesWithMeta, FecSet, ShredProcessor, Host}
use shreds.Processor.Process.{finish, gather, decode, conclude, process_fec_set}

-- What a call that returns has done: nothing, counted a failure, or finished the set.
abbrev pub Effect :
    {ShredId Entry : Type 0}
    → ShredProcessor ShredId Entry
    → ℕ × ℕ
    → ShredProcessor ShredId Entry
    → Type 0
Effect {Entry = Entry} self key next =
    (next ≡ self)
    ⊎ (next ≡ record self { fec_set_failure = (self.fec_set_failure + 1) % u128_mod })
    ⊎ ((n : ℕ) × (entries : List Entry) × (next ≡ finish self key n entries))

pub Effect-sent :
    {ShredId Entry : Type 0} (self : ShredProcessor ShredId Entry) (key : ℕ × ℕ)
    (next : ShredProcessor ShredId Entry)
    → Effect self key next
    → (added : List (EntriesWithMeta Entry)) × (next.sent ≡ self.sent ++ added) × (length added ≤ 1)
unfolding finish
Effect-sent self key next (inl e) =
    ([], ap (λ s. s.sent) e ∙ sym (append-nil self.sent), omega arith)
Effect-sent self key next (inr (inl e)) =
    ([], ap (λ s. s.sent) e ∙ sym (append-nil self.sent), omega arith)
Effect-sent self key next (inr (inr (n, entries, e))) =
    (record { entries = entries; slot = key.0 } ∷ [], ap (λ s. s.sent) e, omega arith)

module _ {ShredId Entry : Type 0} (self : ShredProcessor ShredId Entry) (key : ℕ × ℕ)
    (next : ShredProcessor ShredId Entry) where
  -- No batch is sent, no set is touched, and one failure at most is counted.
  abbrev pub Keeps : Type 0
  Keeps =
      (next.sent ≡ self.sent)
      × (next.fec_sets ≡ self.fec_sets)
      × (next.fec_set_success ≡ self.fec_set_success)
      × (next.total_processed_data ≡ self.total_processed_data)
      × ((next.fec_set_failure ≡ self.fec_set_failure)
          ⊎ (next.fec_set_failure ≡ (self.fec_set_failure + 1) % u128_mod))

  -- The set was in the map and is the only one that is gone; one batch of its slot is sent behind the others,
  -- and one success is counted.
  abbrev pub Finishes : Type 0
  Finishes =
      ((fec_set : FecSet) × (lookup key self.fec_sets ≡ some fec_set) × (fec_set.processed ≡ false))
      × ((other : ℕ × ℕ)
          → lookup other next.fec_sets
            ≡ (if key == other then none else lookup other self.fec_sets))
      × ((entries : List Entry) × (next.sent
            ≡ self.sent ++ (record { entries = entries; slot = key.0 } ∷ [])))
      × (next.fec_set_success ≡ (self.fec_set_success + 1) % u128_mod)
      × (next.fec_set_failure ≡ self.fec_set_failure)

  -- What was collected stays as it is.
  abbrev pub Settles : Type 0
  Settles =
      (Keeps ⊎ Finishes)
      × (next.uniqueness ≡ self.uniqueness)
      × (next.total_collected_data ≡ self.total_collected_data)
      × (next.total_collected_coding ≡ self.total_collected_coding)

Settles-refl :
    {ShredId Entry : Type 0} (self : ShredProcessor ShredId Entry) (key : ℕ × ℕ)
    → Settles self key self
Settles-refl self key = (inl (refl, refl, refl, refl, inl refl), refl, refl, refl)

Effect-Settles :
    {ShredId Entry : Type 0} (self : ShredProcessor ShredId Entry) (key : ℕ × ℕ)
    (next : ShredProcessor ShredId Entry) (fec_set : FecSet)
    → Distinct self.fec_sets
    → lookup key self.fec_sets ≡ some fec_set
    → fec_set.processed ≡ false
    → Effect self key next
    → Settles self key next
unfolding finish
Effect-Settles self key next fec_set d p q (inl e) =
    subst (Settles self key) (sym e) (Settles-refl self key)
Effect-Settles self key next fec_set d p q (inr (inl e)) =
    subst (Settles self key) (sym e) (inl (refl, refl, refl, refl, inr refl), refl, refl, refl)
Effect-Settles self key next fec_set d p q (inr (inr (n, entries, e))) =
    subst (Settles self key) (sym e) (
      inr (
        (fec_set, p, q),
        λ other. lookup-remove key other self.fec_sets d,
        (entries, refl),
        refl,
        refl,
      ),
      refl,
      refl,
      refl,
    )

module _ {Shred ShredId Entry : Type 0} (l : Ledger Shred ShredId) (host : Host Entry) where
  conclude-Effect :
      (self : ShredProcessor ShredId Entry) (key : ℕ × ℕ) (shreds : List Shred)
      (next : ShredProcessor ShredId Entry)
      → conclude l host self key shreds ≡ ok next
      → Effect self key next
  unfolding conclude
  conclude-Effect self key [] next h = inl (ground arith)
  conclude-Effect self key (shred ∷ shreds) next h =
      elim (Outcome-cases (decode l host (shred ∷ shreds))) [
        | inl (entries, p) ↦ inr (inr (length (shred ∷ shreds), entries, ground (arith, p)))
        | inr (inl (e, p)) ↦ inr (inl (ground (arith, p)))
        | inr (inr p) ↦ absurd (ground (arith, p))
      ]

  pub process_fec_set-Effect :
      (self : ShredProcessor ShredId Entry) (key : ℕ × ℕ) (next : ShredProcessor ShredId Entry)
      → process_fec_set l host self key ≡ ok next
      → Effect self key next
  unfolding process_fec_set
  process_fec_set-Effect self key next h = elim (Option-cases (lookup key self.fec_sets)) [
    | inl p ↦ inl (ground (arith, p))
    | inr (fec_set, p) ↦ elim (Bool-cases fec_set.processed) [
      | inl done ↦ inl (ground (arith, p))
      | inr open_set ↦ elim (Outcome-cases (gather l host fec_set)) [
        | inl (shreds, q) ↦ conclude-Effect self key shreds next (ground (arith, p, q))
        | inr (inl (e, q)) ↦ absurd (ground (arith, p, q))
        | inr (inr q) ↦ absurd (ground (arith, p, q))
      ]
    ]
  ]

  -- For a map with distinct keys, a call of `process_fec_set` that returns sends a batch exactly if it takes
  -- the set out of the map: either it sends nothing, leaves the map as it is and counts one failure at
  -- most; or the set was there and not processed, it is gone and every other one stays, one batch of
  -- its slot is sent behind those that were sent, and one success is counted and no failure. What was
  -- collected, the ids and the two totals, stays in both cases.
  pub process_fec_set-Settles :
      (self : ShredProcessor ShredId Entry) (key : ℕ × ℕ) (next : ShredProcessor ShredId Entry)
      → Distinct self.fec_sets
      → process_fec_set l host self key ≡ ok next
      → Settles self key next
  unfolding process_fec_set
  process_fec_set-Settles self key next d h =
      let unchanged = λ (e : self ≡ next). subst (Settles self key) e (Settles-refl self key) in
      elim (Option-cases (lookup key self.fec_sets)) [
        | inl p ↦ unchanged (ground (arith, p))
        | inr (fec_set, p) ↦ elim (Bool-cases fec_set.processed) [
          | inl done ↦ unchanged (ground (arith, p))
          | inr fresh ↦
              Effect-Settles self key next fec_set d p fresh
                (process_fec_set-Effect self key next h)
        ]
      ]

  pub process_step :
      (self : ShredProcessor ShredId Entry) (key : ℕ × ℕ) (fec_set : FecSet) (shreds : List Shred)
      → lookup key self.fec_sets ≡ some fec_set
      → fec_set.processed ≡ false
      → gather l host fec_set ≡ ok shreds
      → process_fec_set l host self key ≡ conclude l host self key shreds
  unfolding process_fec_set
  process_step self key fec_set shreds p q r = ground arith

  -- For a set in the map that was not processed, whose shreds were gathered: if there are none, nothing
  -- changes; if they decode, the set is finished; if they do not, the set stays and a failure is
  -- counted; and a panic in decoding is a panic of the whole.
  pub process_fec_set_lem :
      (self : ShredProcessor ShredId Entry) (key : ℕ × ℕ) (fec_set : FecSet) (shreds : List Shred)
      → lookup key self.fec_sets ≡ some fec_set
      → fec_set.processed ≡ false
      → gather l host fec_set ≡ ok shreds
      → ((shreds ≡ []) × (process_fec_set l host self key ≡ ok self))
        ⊎ ((entries : List Entry) × (decode l host shreds ≡ ok entries)
            × (process_fec_set l host self key ≡ ok (finish self key (length shreds) entries)))
        ⊎ ((e : EntriesError) × (decode l host shreds ≡ err e)
            × (process_fec_set l host self key
                ≡ ok (record self { fec_set_failure = (self.fec_set_failure + 1) % u128_mod })))
        ⊎ ((decode l host shreds ≡ panicked) × (process_fec_set l host self key ≡ panicked))
  unfolding conclude
  process_fec_set_lem self key fec_set [] p q r = inl (refl, process_step self key fec_set [] p q r)
  process_fec_set_lem self key fec_set (shred ∷ shreds) p q r =
      let step = process_step self key fec_set (shred ∷ shreds) p q r in
      elim (Outcome-cases (decode l host (shred ∷ shreds))) [
        | inl (entries, d) ↦ inr (inl (entries, d, step ∙ rw d refl))
        | inr (inl (e, d)) ↦ inr (inr (inl (e, d, step ∙ rw d refl)))
        | inr (inr d) ↦ inr (inr (inr (d, step ∙ rw d refl)))
      ]
