-- ===== src/Processor/Collect/Unique.antt =====
-- A shred is collected once, and touches its own set alone.
use shreds.Base.{
  ℕ, ◌≤◌, ◌≡◌, ◌≢◌, ◌⊎◌, ap, sym, ◌∙◌, true, false, ltb, pair_eq, pair_beq_iff, contains, some,
  List, ◌∷◌, length, ok, Outcome-cases, Option-cases, Bool-cases, arith, inl, inr,
}
use shreds.Base.Assoc.{lookup, Distinct, lookup-insert, lookup-remove, insert-Distinct}
use shreds.Ledger.{Ledger}
use shreds.Shred.Header.{is_shred_data, get_shred_index, get_fec_set_index}
use shreds.Processor.State.{FecSet, ShredProcessor, Host, is_fec_set_complete}
use shreds.Processor.Process.{finish}
use shreds.Processor.Process.Branches.{Effect, process_fec_set-Effect}
use shreds.Processor.Collect.{absorb, count_shred, insert, collect, min_shred_length}

module _ {Shred ShredId Entry : Type 0} (l : Ledger Shred ShredId) (host : Host Entry) where
  -- What an `insert` that returns has done: the shred was counted in its set, and the set then had an
  -- effect of `process_fec_set`, or none.
  abbrev pub Inserted :
      ShredProcessor ShredId Entry → ℕ → List ℕ → ShredProcessor ShredId Entry → Type 0
  Inserted self slot raw next =
      (index fec_index : ℕ) × (fec_set : FecSet) × (get_shred_index l raw ≡ ok index)
      × (get_fec_set_index l raw ≡ ok fec_index)
      × (absorb l host self (slot, fec_index) index raw ≡ ok fec_set)
      × Effect (count_shred self (is_shred_data l raw) (slot, fec_index) fec_set) (slot, fec_index)
          next

  pub insert-Inserted :
      (self : ShredProcessor ShredId Entry) (slot : ℕ) (raw : List ℕ)
      (next : ShredProcessor ShredId Entry)
      → insert l host self slot raw ≡ ok next
      → Inserted self slot raw next
  unfolding insert
  insert-Inserted self slot raw next h = elim (Outcome-cases (get_shred_index l raw)) [
    | inr (inl (e, p)) ↦ absurd (ground (arith, p))
    | inr (inr p) ↦ absurd (ground (arith, p))
    | inl (index, p) ↦ elim (Outcome-cases (get_fec_set_index l raw)) [
      | inr (inl (e, q)) ↦ absurd (ground (arith, p, q))
      | inr (inr q) ↦ absurd (ground (arith, p, q))
      | inl (fec_index, q) ↦ elim (Outcome-cases (absorb l host self (slot, fec_index) index raw)) [
        | inr (inl (e, r)) ↦ absurd (ground (arith, p, q, r))
        | inr (inr r) ↦ absurd (ground (arith, p, q, r))
        | inl (fec_set, r) ↦ (
          index,
          fec_index,
          fec_set,
          p,
          q,
          r,
          elim (Bool-cases (is_fec_set_complete fec_set)) [
            | inl complete ↦ process_fec_set-Effect l host _ _ next (ground (arith, p, q, r))
            | inr incomplete ↦ inl (ground (arith, p, q, r))
          ],
        )
      ]
    ]
  ]

  Effect-uniqueness :
      (self : ShredProcessor ShredId Entry) (key : ℕ × ℕ) (next : ShredProcessor ShredId Entry)
      → Effect self key next
      → next.uniqueness ≡ self.uniqueness
  unfolding finish
  Effect-uniqueness self key next (inl e) = ap (λ s. s.uniqueness) e
  Effect-uniqueness self key next (inr (inl e)) = ap (λ s. s.uniqueness) e
  Effect-uniqueness self key next (inr (inr (n, entries, e))) = ap (λ s. s.uniqueness) e

  pub insert-uniqueness :
      (self : ShredProcessor ShredId Entry) (slot : ℕ) (raw : List ℕ)
      (next : ShredProcessor ShredId Entry)
      → insert l host self slot raw ≡ ok next
      → next.uniqueness ≡ self.uniqueness
  unfolding count_shred
  insert-uniqueness self slot raw next h =
      let (index, fec_index, fec_set, p, q, r, effect) = insert-Inserted self slot raw next h in
      Effect-uniqueness _ _ next effect

  abbrev pub marked : ShredProcessor ShredId Entry → ShredId → ShredProcessor ShredId Entry
  marked self id = record self { uniqueness = id ∷ self.uniqueness }

  -- A packet that `collect` takes in is long enough and has an id that was not seen.
  abbrev pub Fresh : ShredProcessor ShredId Entry → List ℕ → ShredId → Type 0
  Fresh self raw id =
      (min_shred_length ≤ length raw)
      × (l.get_shred_id raw ≡ some id)
      × (contains ⦃eq = l.id_eq⦄ self.uniqueness id ≡ false)

  -- `collect` drops a packet, or marks its id and inserts the shred.
  pub collect_cases :
      (self : ShredProcessor ShredId Entry) (raw : List ℕ)
      → (collect l host self raw ≡ ok self)
        ⊎ ((id : ShredId) × Fresh self raw id
            × (collect l host self raw ≡ insert l host (marked self id) (l.id_slot id) raw))
  unfolding collect
  collect_cases self raw = elim (Bool-cases (ltb (length raw) min_shred_length)) [
    | inl short ↦ inl (ground arith)
    | inr long ↦ elim (Option-cases (l.get_shred_id raw)) [
      | inl p ↦ inl (ground (arith, p))
      | inr (id, p) ↦ elim (Bool-cases (contains ⦃eq = l.id_eq⦄ self.uniqueness id)) [
        | inl old ↦ inl (ground (arith, p))
        | inr fresh ↦ inr (id, (ground arith, p, fresh), ground (arith, p))
      ]
    ]
  ]

  pub collect_seen :
      (self : ShredProcessor ShredId Entry) (raw : List ℕ) (id : ShredId)
      → l.get_shred_id raw ≡ some id
      → contains ⦃eq = l.id_eq⦄ self.uniqueness id ≡ true
      → collect l host self raw ≡ ok self
  unfolding collect
  collect_seen self raw id p old = ground arith

  -- A packet that was collected is dropped when it comes again: nothing changes, no counter either.
  pub collect-collect :
      (self : ShredProcessor ShredId Entry) (raw : List ℕ) (next : ShredProcessor ShredId Entry)
      → collect l host self raw ≡ ok next
      → collect l host next raw ≡ ok next
  collect-collect self raw next h = elim (collect_cases self raw) [
    | inl dropped ↦ ground (arith, dropped)
    | inr (id, (long, p, fresh), taken) ↦
        let ids = insert-uniqueness (marked self id) (l.id_slot id) raw next (sym taken ∙ h) in
        collect_seen next raw id p
          (ap (λ xs. contains ⦃eq = l.id_eq⦄ xs id) ids ∙ ground (arith, l.id_eq.beq_iff id id))
  ]

  Effect-lookup_ne :
      (self : ShredProcessor ShredId Entry) (key other : ℕ × ℕ)
      (next : ShredProcessor ShredId Entry)
      → Distinct self.fec_sets
      → key ≢ other
      → Effect self other next
      → lookup key next.fec_sets ≡ lookup key self.fec_sets
  unfolding finish
  Effect-lookup_ne self key other next d ne (inl e) = ap (λ s. lookup key s.fec_sets) e
  Effect-lookup_ne self key other next d ne (inr (inl e)) = ap (λ s. lookup key s.fec_sets) e
  Effect-lookup_ne self key other next d ne (inr (inr (n, entries, e))) =
      ap (λ s. lookup key s.fec_sets) e
      ∙ ground (arith, lookup-remove other key self.fec_sets d, pair_beq_iff other key)

  -- An insertion that returns leaves the sets of all keys but its own as they were, the keys of the map
  -- being distinct.
  pub insert-lookup_ne :
      (self : ShredProcessor ShredId Entry) (slot : ℕ) (raw : List ℕ)
      (next : ShredProcessor ShredId Entry) (key : ℕ × ℕ) (fec_index : ℕ)
      → insert l host self slot raw ≡ ok next
      → get_fec_set_index l raw ≡ ok fec_index
      → Distinct self.fec_sets
      → key ≢ (slot, fec_index)
      → lookup key next.fec_sets ≡ lookup key self.fec_sets
  unfolding count_shred
  insert-lookup_ne self slot raw next key fec_index h f d ne =
      let (index, j, fec_set, p, q, r, effect) = insert-Inserted self slot raw next h in
      let same : j ≡ fec_index = ground (arith, q) in
      let other : key ≢ (slot, j) = λ e. ne (e ∙ ap (λ i. (slot, i)) same) in
      Effect-lookup_ne _ key (slot, j) next (insert-Distinct (slot, j) fec_set self.fec_sets d)
        other effect
      ∙ ground (
        arith,
        lookup-insert (slot, j) key fec_set self.fec_sets,
        pair_beq_iff (slot, j) key,
        other,
      )
