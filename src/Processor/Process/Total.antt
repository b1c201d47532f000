-- ===== src/Processor/Process/Total.antt =====
-- `process_fec_set` returns: nothing on its path panics.
use shreds.Base.{
  ℕ, ◌≡◌, ◌≢◌, refl, Bool, false, ltb, List, [], ◌∷◌, ◌++◌, length, select, flat_map, All,
  All-append, ok, panicked, Option-cases, Outcome-cases, Bool-cases, arith, inl, inr, pair_eq, leb,
}
use shreds.Base.Assoc.{lookup}
use shreds.Base.Sort.{sort_by_key, insert_sorted}
use shreds.Ledger.{Ledger, IsDocumented, NeverPanics, KeepsHeaders, HasHeader}
use shreds.Shred.Payload.Join.{HaveHeaders, deshred_lem, data_or_default}
use shreds.Shred.Entries.Decode.{deserialize_entries_cases}
use shreds.Processor.State.{FecSet, ShredProcessor, Host}
use shreds.Processor.Process.{unwrap_or, parse_all, add_recovered, gather, decode, process_fec_set}
use shreds.Processor.Process.Branches.{process_fec_set_lem}

module _ {A : Type 0} (P : A → Type 0) where
  All-select : (p : A → Bool) (xs : List A) → All P xs → All P (select p xs)
  All-select p [] a = tt
  All-select p (x ∷ xs) a = elim (Bool-cases (p x)) [
    | inl in_it ↦ rw in_it (a.0, All-select p xs a.1)
    | inr out ↦ rw out (All-select p xs a.1)
  ]

  All-insert_sorted :
      (key : A → ℕ) (y : A) (ys : List A) → P y → All P ys → All P (insert_sorted key y ys)
  unfolding insert_sorted
  All-insert_sorted key y [] h a = (h, tt)
  All-insert_sorted key y (x ∷ xs) h a = elim (Bool-cases (leb (key y) (key x))) [
    | inl first ↦ rw first (h, a)
    | inr later ↦ rw later (a.0, All-insert_sorted key y xs h a.1)
  ]

  All-sort_by_key : (key : A → ℕ) (ys : List A) → All P ys → All P (sort_by_key key ys)
  unfolding sort_by_key
  All-sort_by_key key [] a = tt
  All-sort_by_key key (y ∷ ys) a =
      All-insert_sorted key y (sort_by_key key ys) a.0 (All-sort_by_key key ys a.1)

module _ {Shred ShredId Entry : Type 0} (l : Ledger Shred ShredId) (host : Host Entry)
    (doc : IsDocumented l) (safe : NeverPanics l) (kept : KeepsHeaders l)
    (quiet : host.tracing ≡ false) where
  parse_all_total :
      (raws : List (List ℕ))
      → (shreds : List Shred) × (parse_all l host raws ≡ ok shreds) × HaveHeaders l shreds
  unfolding parse_all
  parse_all_total [] = ([], refl, tt)
  parse_all_total (raw ∷ raws) =
      let (shreds, p, a) = parse_all_total raws in
      elim (Outcome-cases (l.new_from_serialized_shred raw)) [
        | inl (shred, q) ↦
            (shred ∷ shreds, ground (arith, p, q), (kept.parsed_header raw shred q, a))
        | inr (inl (e, q)) ↦ (shreds, ground (arith, p, q), a)
        | inr (inr q) ↦ absurd (safe.parses raw q)
      ]

  add_recovered_total :
      (fec_set : FecSet) (shreds : List Shred)
      → HaveHeaders l shreds
      → (all_shreds : List Shred) × (add_recovered l host fec_set shreds ≡ ok all_shreds)
        × HaveHeaders l all_shreds
  unfolding add_recovered
  add_recovered_total fec_set shreds a =
      elim (Bool-cases (ltb (length shreds) (unwrap_or fec_set.num_expected_data 1))) [
        | inr enough ↦ (shreds, ground arith, a)
        | inl few ↦
            let (coding, p, _) = parse_all_total (host.values fec_set.coding_shreds) in
            elim (Outcome-cases (l.try_recovery (shreds ++ coding))) [
              | inl (recovered, q) ↦ (
                shreds ++ select l.is_data recovered,
                ground (arith, p, q),
                All-append (λ s. HasHeader (l.payload s)) shreds (select l.is_data recovered) a
                    (All-select (λ s. HasHeader (l.payload s)) l.is_data recovered
                      (kept.recovered_headers (shreds ++ coding) recovered q)),
              )
              | inr (inl (e, q)) ↦ (shreds, ground (arith, p, q), a)
              | inr (inr q) ↦ absurd (safe.recovers (shreds ++ coding) q)
            ]
      ]

  gather_total :
      (fec_set : FecSet)
      → (shreds : List Shred) × (gather l host fec_set ≡ ok shreds) × HaveHeaders l shreds
  unfolding gather
  gather_total fec_set =
      let (shreds, p, a) = parse_all_total (host.values fec_set.data_shreds) in
      let (all_shreds, q, b) = add_recovered_total fec_set shreds a in
      (
        sort_by_key l.index all_shreds,
        ground (arith, p, q),
        All-sort_by_key (λ s. HasHeader (l.payload s)) l.index all_shreds b,
      )

  decode-ne-panicked :
      (shreds : List Shred) → HaveHeaders l shreds → decode l host shreds ≢ panicked
  unfolding decode
  decode-ne-panicked shreds a h =
      let (joined, _) = deshred_lem l doc shreds a in
      let bytes = flat_map (data_or_default l) shreds in
      ground (arith, joined, quiet, deserialize_entries_cases host.read_entry host.tracing bytes)

  -- Processing a set returns, without a panic: for a parser and a recovery that do not panic and
  -- give whole shreds, the documented constants, and with trace messages off.
  pub process_fec_set_total :
      (self : ShredProcessor ShredId Entry) (key : ℕ × ℕ)
      → (next : ShredProcessor ShredId Entry) × (process_fec_set l host self key ≡ ok next)
  unfolding process_fec_set
  process_fec_set_total self key = elim (Option-cases (lookup key self.fec_sets)) [
    | inl p ↦ (self, ground (arith, p))
    | inr (fec_set, p) ↦ elim (Bool-cases fec_set.processed) [
      | inl done ↦ (self, ground (arith, p))
      | inr fresh ↦
          let (shreds, q, a) = gather_total fec_set in
          elim (process_fec_set_lem l host self key fec_set shreds p fresh q) [
            | inl (_, r) ↦ (self, r)
            | inr (inl (entries, _, r)) ↦ (_, r)
            | inr (inr (inl (e, _, r))) ↦ (_, r)
            | inr (inr (inr (r, _))) ↦ absurd (decode-ne-panicked shreds a r)
          ]
    ]
  ]
