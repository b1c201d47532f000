-- ===== src/Processor/Collect/Panics.antt =====
-- When `collect` panics, and when it cannot.
use shreds.Base.{
  get_elem?-lt, ℕ, ◌≤◌, ◌<◌, ◌≡◌, ◌≢◌, refl, ◌∙◌, Bool, true, false, ◌||◌, contains, nat_eq,
  pair_eq, some, List, length, ok, panicked, Bool-cases, arith, inl, inr,
}
use shreds.Base.Assoc.{lookup, insert as insert_key}
use shreds.Ledger.{Ledger, IsDocumented, NeverPanics, KeepsHeaders}
use shreds.Shred.Header.{
  ShredError, is_shred_data, get_shred_index, get_fec_set_index, get_last_in_slot,
  get_coding_shred_header, contains_last,
}
use shreds.Shred.Header.Fields.{word_at_cases, header_of, get_coding_shred_header_cases}
use shreds.Processor.State.{FecSet, ShredProcessor, Host, is_fec_set_complete}
use shreds.Processor.Process.Total.{process_fec_set_total}
use shreds.Processor.Collect.{
  is_none, or_new, add_data, learn_counts, add_coding, with_counts, absorb, count_shred, insert,
  collect, min_shred_length,
}
use shreds.Processor.Collect.Unique.{collect_cases, marked}

module _ {Shred ShredId : Type 0} (l : Ledger Shred ShredId) where
  -- The two indices stand in the part of the header that every collected packet has.
  pub indices_ok :
      (raw : List ℕ)
      → min_shred_length ≤ length raw
      → (index fec_index : ℕ) × (get_shred_index l raw ≡ ok index)
        × (get_fec_set_index l raw ≡ ok fec_index)
  unfolding get_shred_index get_fec_set_index
  indices_ok raw long = elim (word_at_cases {E = ShredError} raw 0x49 4) [
    | inr (short, _) ↦ absurd (omega arith)
    | inl (_, p) ↦ elim (word_at_cases {E = ShredError} raw 0x4f 4) [
      | inr (short, _) ↦ absurd (omega arith)
      | inl (_, q) ↦ (_, _, p, q)
    ]
  ]

  -- A set that does not know its counts yet.
  abbrev pub IsUncounted : FecSet → Type 0
  IsUncounted fec_set =
      (is_none fec_set.num_expected_data || is_none fec_set.num_expected_coding) ≡ true

  header_panics :
      (raw : List ℕ)
      → is_shred_data l raw ≡ false
      → length raw < 0x59
      → get_coding_shred_header l raw ≡ panicked
  header_panics raw coding short = elim (get_coding_shred_header_cases l raw) [
    | inl (is_data, _) ↦ cc
    | inr (inl (_, _, p)) ↦ p
    | inr (inr (_, long, _)) ↦ absurd (omega arith)
  ]

  add_coding_panics :
      (fec_set : FecSet) (index : ℕ) (raw : List ℕ)
      → IsUncounted fec_set
      → get_coding_shred_header l raw ≡ panicked
      → add_coding l fec_set index raw ≡ panicked
  unfolding add_coding learn_counts
  add_coding_panics fec_set index raw uncounted p = rw (uncounted, p) refl

  pub get_last_in_slot_total :
      (raw : List ℕ) → min_shred_length ≤ length raw → (b : Bool) × (get_last_in_slot l raw ≡ ok b)
  unfolding get_last_in_slot
  get_last_in_slot_total raw long =
      let (flags, p) = get_elem?-lt raw 0x55 (omega arith) in
      elim (Bool-cases (is_shred_data l raw)) [
        | inl is_data ↦ (contains_last l (l.flags_from_bits flags), rw (is_data, p) refl)
        | inr coding ↦ (false, rw coding refl)
      ]

  learn_counts_total :
      (fec_set : FecSet) (raw : List ℕ)
      → 0x59 ≤ length raw
      → (next : FecSet) × (learn_counts l fec_set raw ≡ ok next)
  unfolding learn_counts
  learn_counts_total fec_set raw long =
      elim (Bool-cases (is_none fec_set.num_expected_data || is_none fec_set.num_expected_coding)) [
        | inr known ↦ (fec_set, rw known refl)
        | inl unknown ↦ elim (get_coding_shred_header_cases l raw) [
          | inl (_, p) ↦ (fec_set, rw (unknown, p) refl)
          | inr (inl (_, short, _)) ↦ absurd (omega arith)
          | inr (inr (_, _, p)) ↦ (with_counts fec_set (header_of raw), rw (unknown, p) refl)
        ]
      ]

module _ {Shred ShredId Entry : Type 0} (l : Ledger Shred ShredId) (host : Host Entry) where
  insert_panics :
      (self : ShredProcessor ShredId Entry) (slot : ℕ) (raw : List ℕ) (index fec_index : ℕ)
      → get_shred_index l raw ≡ ok index
      → get_fec_set_index l raw ≡ ok fec_index
      → is_shred_data l raw ≡ false
      → add_coding l (or_new (lookup (slot, fec_index) self.fec_sets)) index raw ≡ panicked
      → insert l host self slot raw ≡ panicked
  unfolding insert absorb
  insert_panics self slot raw index fec_index p q coding r = rw (p, q, coding, r) refl

  -- A packet of exactly the least length that is let in, 0x58 bytes, panics if it is new, is no data
  -- shred, and belongs to a set whose counts are not known: the coding header ends at byte 0x59.
  pub collect_panics :
      (self : ShredProcessor ShredId Entry) (raw : List ℕ) (id : ShredId) (fec_index : ℕ)
      → length raw ≡ min_shred_length
      → l.get_shred_id raw ≡ some id
      → contains ⦃eq = l.id_eq⦄ self.uniqueness id ≡ false
      → is_shred_data l raw ≡ false
      → get_fec_set_index l raw ≡ ok fec_index
      → IsUncounted l (or_new (lookup (l.id_slot id, fec_index) self.fec_sets))
      → collect l host self raw ≡ panicked
  unfolding collect
  collect_panics self raw id fec_index long p fresh coding q uncounted =
      let (index, _, r, _) = indices_ok l raw (omega (arith, long)) in
      let header = header_panics l raw coding (omega (arith, long)) in
      let added =
        add_coding_panics l (or_new (lookup (l.id_slot id, fec_index) self.fec_sets)) index raw
          uncounted header in
      let inserted =
        insert_panics (marked l host self id) (l.id_slot id) raw index fec_index r q coding added in
      ground (arith, inserted, p, fresh)

module _ {Shred ShredId Entry : Type 0} (l : Ledger Shred ShredId) (host : Host Entry)
    (doc : IsDocumented l) (safe : NeverPanics l) (kept : KeepsHeaders l)
    (quiet : host.tracing ≡ false) where
  absorb_total :
      (self : ShredProcessor ShredId Entry) (key : ℕ × ℕ) (index : ℕ) (raw : List ℕ)
      → 0x59 ≤ length raw
      → (fec_set : FecSet) × (absorb l host self key index raw ≡ ok fec_set)
  unfolding absorb add_data add_coding
  absorb_total self key index raw long =
      let fec_set = or_new (lookup key self.fec_sets) in
      let (b, p) = get_last_in_slot_total l raw (omega arith) in
      let (next, q) =
        learn_counts_total l
          (record fec_set { coding_shreds = insert_key index raw fec_set.coding_shreds }) raw
          long in
      elim (Bool-cases (is_shred_data l raw)) [
        | inl is_data ↦ (
          record fec_set {
            data_shreds = insert_key index raw fec_set.data_shreds;
            is_last_in_slot = fec_set.is_last_in_slot || b;
          },
          rw (is_data, p) refl,
        )
        | inr coding ↦ (next, rw coding q)
      ]

  -- Collecting a packet whose length is not 0x58 returns, without a panic: for a parser and a
  -- recovery that do not panic and give whole shreds, the documented constants, and with trace
  -- messages off.
  pub collect_total :
      (self : ShredProcessor ShredId Entry) (raw : List ℕ)
      → length raw ≢ min_shred_length
      → (next : ShredProcessor ShredId Entry) × (collect l host self raw ≡ ok next)
  unfolding insert
  collect_total self raw ne = elim (collect_cases l host self raw) [
    | inl dropped ↦ (self, dropped)
    | inr (id, (long, _, _), taken) ↦
        let marked_self = marked l host self id in
        let (index, fec_index, p, q) = indices_ok l raw long in
        let key : ℕ × ℕ = (l.id_slot id, fec_index) in
        let (fec_set, r) = absorb_total marked_self key index raw (omega arith) in
        let counted = count_shred marked_self (is_shred_data l raw) key fec_set in
        elim (Bool-cases (is_fec_set_complete fec_set)) [
          | inl complete ↦
              let (next, s) = process_fec_set_total l host doc safe kept quiet counted key in
              (next, taken ∙ rw (p, q, r, complete) s)
          | inr incomplete ↦ (counted, taken ∙ rw (p, q, r, incomplete) refl)
        ]
  ]
