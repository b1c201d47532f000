-- ===== src/Shred/Examples.antt =====
-- Runs on the sample shreds, and the theorems at them.
use shreds.Shred.Header.{get_last_in_slot, is_shred_data}
use shreds.Shred.Payload.{shred_data, data_range, deshred}
use shreds.Variant.{try_from}
use shreds.Base.Bytes.{slice, to_le_bytes}
use shreds.Sample.{batch, data_shred, ledger, read_byte, encode_byte, first_data, first_coding}
use shreds.Base.{
  ℕ, ◌+◌, ◌<◌, ◌==◌, Option, none, some, ◌≡◌, ◌⊎◌, refl, true, false, not, ◌&&◌, nat_eq, leb, ltb,
  List, [], ◌∷◌, ◌++◌, length, contains, ok, arith,
}
use shreds.Base.Sort.{find_key, IsStrict}
use shreds.Ledger.{Ledger}
use shreds.Shred.Entries.{deserialize_entries}
use shreds.Shred.Entries.Decode.{deserialize_entries-encode, deserialize_entries-cut}
use shreds.Shred.Sets.{preprocess_shreds}
use shreds.Shred.Sets.Preprocess.{data_of, code_of, preprocess_shreds_lem}
use shreds.Shred.Repair.{aligned, missing_indices, validate_and_try_repair, try_repair, recover}
use shreds.Shred.Repair.Missing.{end_of, indices, missing_indices_lem, aligned-missing_indices}
use shreds.Shred.Repair.Validate.{intact, Repaired, validate_and_try_repair_ok}

deserialize_entries-encode_example :
    deserialize_entries read_byte false (to_le_bytes 8 2 ++ (5 ∷ 6 ∷ 7 ∷ [])) ≡ ok (5 ∷ 6 ∷ [])
deserialize_entries-encode_example =
    deserialize_entries-encode read_byte encode_byte (λ entry rest. refl) (5 ∷ 6 ∷ []) (7 ∷ [])
      (omega arith)

-- Entries of two bytes. A byte alone is left where it is.
abbrev read_pair : List ℕ → Option (ℕ × ℕ) × List ℕ
read_pair [] = (none, [])
read_pair (a ∷ []) = (none, a ∷ [])
read_pair (a ∷ b ∷ rest) = (some (a, b), rest)

abbrev encode_pair : ℕ × ℕ → List ℕ
encode_pair (a, b) = a ∷ b ∷ []

deserialize_entries-cut_example :
    (more : List (ℕ × ℕ)) × (deserialize_entries read_pair false
        (to_le_bytes 8 (2 + 3) ++ (5 ∷ 6 ∷ 7 ∷ 8 ∷ 9 ∷ []))
      ≡ ok (((5, 6) ∷ (7, 8) ∷ []) ++ more))
    × (length more < 3)
deserialize_entries-cut_example =
    deserialize_entries-cut read_pair encode_pair (λ entry rest. refl) ((5, 6) ∷ (7, 8) ∷ []) 3
      (9 ∷ []) (omega arith) (omega arith) refl

-- Data shreds of one slot by index; the last of a slot has its flags set.
abbrev shred_at : ℕ → ℕ → List ℕ
shred_at index flags = data_shred 7 index 0 flags (index ∷ [])

abbrev mixed : List (List ℕ)
mixed = shred_at 2 0xc0 ∷ first_coding ∷ shred_at 0 0 ∷ shred_at 2 0 ∷ []

preprocess_shreds_lem_example :
    IsStrict ledger.index (preprocess_shreds ledger mixed).0
    × ((i : ℕ)
        → find_key ledger.index i (preprocess_shreds ledger mixed).0
          ≡ find_key ledger.index i (data_of ledger mixed))
    × ((preprocess_shreds ledger mixed).1 ≡ code_of ledger mixed)
preprocess_shreds_lem_example = preprocess_shreds_lem ledger mixed

abbrev gapped : List (List ℕ)
gapped = shred_at 0 0 ∷ shred_at 2 0xc0 ∷ []

missing_indices_lem_example :
    ((i : ℕ)
      → contains (missing_indices ledger 0 gapped) i
        ≡ (leb 0 i && ltb i (end_of ledger 0 gapped) && not (contains (indices ledger gapped) i)))
    × (length (missing_indices ledger 0 gapped) + length gapped + 0 ≡ end_of ledger 0 gapped)
missing_indices_lem_example = missing_indices_lem ledger 0 gapped (omega arith)

-- A ledger that recovers the shred that is missing.
abbrev healing : Ledger (List ℕ) (ℕ × ℕ)
healing = record ledger {
  try_recovery = λ shreds. ok (shred_at 0 0 ∷ shred_at 1 0 ∷ shred_at 2 0xc0 ∷ []);
}

gapped_returns : validate_and_try_repair healing gapped (first_coding ∷ []) ≡ ok gapped
unfolding validate_and_try_repair try_repair recover aligned missing_indices
gapped_returns = refl

aligned-missing_indices_example :
    aligned ledger 0 gapped ≡ (length (missing_indices ledger 0 gapped) == 0)
aligned-missing_indices_example = aligned-missing_indices ledger 0 gapped (omega arith)

validate_and_try_repair_ok_example :
    (gapped ≡ gapped)
    × ((intact healing 0 gapped ≡ true) ⊎ Repaired healing 0 gapped (first_coding ∷ []))
validate_and_try_repair_ok_example =
    validate_and_try_repair_ok healing (shred_at 0 0) (shred_at 2 0xc0 ∷ []) (first_coding ∷ [])
      gapped gapped_returns

first_data-last_in_slot : get_last_in_slot ledger first_data ≡ ok true
unfolding get_last_in_slot is_shred_data try_from
first_data-last_in_slot = refl

deshred_first : deshred ledger (first_data ∷ first_coding ∷ []) ≡ ok batch
unfolding deshred shred_data data_range try_from slice
deshred_first = refl

preprocess_shreds-mixed :
    preprocess_shreds ledger mixed ≡ (shred_at 0 0 ∷ shred_at 2 0xc0 ∷ [], first_coding ∷ [])
unfolding preprocess_shreds
preprocess_shreds-mixed = refl

missing_one : missing_indices ledger 0 gapped ≡ 1 ∷ []
unfolding missing_indices
missing_one = refl
