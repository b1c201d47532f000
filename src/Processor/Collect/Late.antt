-- ===== src/Processor/Collect/Late.antt =====
-- A shred that comes after its set was finished opens the set again, and the new set hangs.
use shreds.Base.{
  ℕ, ◌+◌, ◌≤◌, ◌≡◌, refl, ap, ◌∙◌, Bool, true, false, not, nat_eq, pair_eq, ==_refl, none, some,
  List, [], ◌∷◌, ◌++◌, length, select, ok, Bool-cases, arith, inl, inr,
}
use shreds.Base.Assoc.{
  lookup, Distinct, remove, insert as insert_key, lookup-insert_self, lookup-remove,
}
use shreds.Ledger.{Ledger}
use shreds.Shred.Header.{is_shred_data, get_fec_set_index, get_coding_shred_header}
use shreds.Shred.Header.Fields.{header_of, get_coding_shred_header_cases}
use shreds.Processor.State.{
  FecSet, ShredProcessor, Host, new_fec_set, is_fec_set_complete, counts_complete, incomplete_sets,
}
use shreds.Processor.Process.{finish}
use shreds.Processor.Collect.{
  with_counts, add_data, learn_counts, add_coding, absorb, count_shred, insert, min_shred_length,
}
use shreds.Processor.Collect.Panics.{indices_ok, get_last_in_slot_total}

-- A key that is new adds one element to a selection, if its value is selected.
length-select-insert_key :
    (p : (ℕ × ℕ) × FecSet → Bool) (key : ℕ × ℕ) (fec_set : FecSet) (m : List ((ℕ × ℕ) × FecSet))
    → lookup key m ≡ none
    → p (key, fec_set) ≡ true
    → length (select p (insert_key key fec_set m)) ≡ length (select p m) + 1
unfolding insert_key lookup
length-select-insert_key p key fec_set [] absent h = rw h refl
length-select-insert_key p key fec_set ((j, fs) ∷ m) absent h =
    ground (arith, length-select-insert_key p key fec_set m)

-- The sets that one data shred, or one coding shred, makes.
abbrev with_data : ℕ → List ℕ → Bool → FecSet
with_data index raw is_last = record new_fec_set {
  data_shreds = (index, raw) ∷ [];
  is_last_in_slot = is_last;
}

abbrev with_coding : ℕ → List ℕ → FecSet
with_coding index raw =
    with_counts (record new_fec_set { coding_shreds = (index, raw) ∷ [] }) (header_of raw)

-- A coding shred does not complete its set alone: it announces a data shred and two shreds in all.
abbrev pub Announces : List ℕ → Type 0
Announces raw =
    (1 ≤ (header_of raw).num_data_shreds)
    × (2 ≤ (header_of raw).num_data_shreds + (header_of raw).num_coding_shreds)

one_coding : (d c : ℕ) → 1 ≤ d → 2 ≤ d + c → counts_complete 0 1 (some d) (some c) ≡ false
one_coding d c h k = ground arith

module _ {Shred ShredId : Type 0} (l : Ledger Shred ShredId) where
  add_data_first :
      (index : ℕ) (raw : List ℕ)
      → min_shred_length ≤ length raw
      → (is_last : Bool) × (add_data l new_fec_set index raw ≡ ok (with_data index raw is_last))
  unfolding add_data insert_key
  add_data_first index raw long =
      let (is_last, p) = get_last_in_slot_total l raw long in (is_last, rw p refl)

  pub header_ok :
      (raw : List ℕ)
      → is_shred_data l raw ≡ false
      → 0x59 ≤ length raw
      → get_coding_shred_header l raw ≡ ok (header_of raw)
  header_ok raw coding long = elim (get_coding_shred_header_cases l raw) [
    | inl (is_data, _) ↦ absurd (ground arith)
    | inr (inl (_, short, _)) ↦ absurd (omega arith)
    | inr (inr (_, _, p)) ↦ p
  ]

  add_coding_first :
      (index : ℕ) (raw : List ℕ)
      → get_coding_shred_header l raw ≡ ok (header_of raw)
      → add_coding l new_fec_set index raw ≡ ok (with_coding index raw)
  unfolding add_coding learn_counts insert_key
  add_coding_first index raw p = rw p refl

module _ {Shred ShredId Entry : Type 0} (l : Ledger Shred ShredId) (host : Host Entry) where
  -- The shred alone makes a set that is not complete.
  absorb_first :
      (self : ShredProcessor ShredId Entry) (key : ℕ × ℕ) (index : ℕ) (raw : List ℕ)
      → lookup key self.fec_sets ≡ none
      → 0x59 ≤ length raw
      → (is_shred_data l raw ≡ false → Announces raw)
      → (fec_set : FecSet) × (absorb l host self key index raw ≡ ok fec_set)
        × (is_fec_set_complete fec_set ≡ false)
  unfolding absorb is_fec_set_complete
  absorb_first self key index raw absent long announces = elim (Bool-cases (is_shred_data l raw)) [
    | inl is_data ↦
        let (is_last, p) = add_data_first l index raw (omega arith) in
        (with_data index raw is_last, rw (is_data, absent) p, refl)
    | inr coding ↦
        let (some_data, two) = announces coding in
        (
          with_coding index raw,
          rw (coding, absent) (add_coding_first l index raw (header_ok l raw coding long)),
          one_coding (header_of raw).num_data_shreds (header_of raw).num_coding_shreds some_data
              two,
        )
  ]

  -- A shred of 0x59 bytes or more whose set is not in the map, and which if it is coding announces a data
  -- shred and two shreds in all, returns with a new set under its key that is not complete, one more
  -- incomplete set than before, and nothing sent.
  pub insert_late :
      (self : ShredProcessor ShredId Entry) (slot : ℕ) (raw : List ℕ) (fec_index : ℕ)
      → get_fec_set_index l raw ≡ ok fec_index
      → lookup (slot, fec_index) self.fec_sets ≡ none
      → 0x59 ≤ length raw
      → (is_shred_data l raw ≡ false → Announces raw)
      → (next : ShredProcessor ShredId Entry) × (insert l host self slot raw ≡ ok next)
        × ((fec_set : FecSet) × (lookup (slot, fec_index) next.fec_sets ≡ some fec_set)
            × (is_fec_set_complete fec_set ≡ false))
        × (length (incomplete_sets next) ≡ length (incomplete_sets self) + 1)
        × (next.sent ≡ self.sent)
  unfolding insert count_shred incomplete_sets
  insert_late self slot raw fec_index q absent long announces =
      let (index, _, p, _) = indices_ok l raw (omega arith) in
      let key : ℕ × ℕ = (slot, fec_index) in
      let (fec_set, r, open_set) = absorb_first self key index raw absent long announces in
      (
        count_shred self (is_shred_data l raw) key fec_set,
        rw (p, q, r, open_set) refl,
        (fec_set, lookup-insert_self key fec_set self.fec_sets, open_set),
        length-select-insert_key (λ e. not (is_fec_set_complete e.1)) key fec_set self.fec_sets
            absent (ap not open_set),
        refl,
      )

  -- A shred of 0x59 bytes or more that comes for a set that was finished, and if it is coding announces
  -- a data shred and two shreds in all, returns with a set under its key again: that set is not
  -- complete, and nothing but the finished batch was sent. The keys of the map are distinct.
  pub finish-insert_late :
      (self : ShredProcessor ShredId Entry) (key : ℕ × ℕ) (n : ℕ) (entries : List Entry)
      (raw : List ℕ)
      → Distinct self.fec_sets
      → get_fec_set_index l raw ≡ ok key.1
      → 0x59 ≤ length raw
      → (is_shred_data l raw ≡ false → Announces raw)
      → (next : ShredProcessor ShredId Entry) × (insert l host (finish self key n entries) key.0 raw
          ≡ ok next)
        × ((fec_set : FecSet) × (lookup key next.fec_sets ≡ some fec_set)
            × (is_fec_set_complete fec_set ≡ false))
        × (next.sent ≡ self.sent ++ (record { entries = entries; slot = key.0 } ∷ []))
  unfolding finish
  finish-insert_late self key n entries raw d q long announces =
      let absent : lookup key (remove key self.fec_sets) ≡ none =
        lookup-remove key key self.fec_sets d ∙ rw (==_refl key) refl in
      let (next, done, opened, _, sent) =
        insert_late (finish self key n entries) key.0 raw key.1 q absent long announces in
      (next, done, opened, sent)
