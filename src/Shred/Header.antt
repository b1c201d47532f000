-- ===== src/Shred/Header.antt =====
-- src/shred.rs: the fields of a raw shred's header, read from a byte slice.
pub mod Fields
pub mod Expected
use shreds.Base.{
  ℕ, ◌+◌, ◌≤◌, Bool, true, false, not, ◌&&◌, ◌==◌, nat_eq, ltb, leb, if◌then◌else◌, Option, none,
  some, List, get_elem?, length, Outcome, ok, err, panicked, or_panic, ◌>>=◌, ◌>>◌, guard, bit_and,
}
use shreds.Base.Bytes.{slice, le_bytes}
use shreds.Ledger.{Ledger, Error, invalid_payload_size, invalid_shred_variant}
use shreds.Variant.{ShredVariant, legacy_code, legacy_data, merkle_code, merkle_data, try_from}

-- The errors that the functions of src/shred.rs build from a text.
pub data ShredError : Type 0 where
  not_a_coding_shred : ShredError
  no_flags : ShredError
  no_data_shreds : ShredError
  no_code_shreds : ShredError
  too_many_missing : List ℕ → ShredError
  recovery_failed : Error → ShredError
  not_repaired : Bool → Bool → ShredError

-- `matches!(v, LegacyData | MerkleData { .. })`
abbrev pub is_data_variant : ShredVariant → Bool
is_data_variant legacy_code = false
is_data_variant legacy_data = true
is_data_variant (merkle_code proof_size chained resigned) = false
is_data_variant (merkle_data proof_size chained resigned) = true

pub record CodingShredHeader : Type 0 where
  pub num_data_shreds : ℕ
  pub num_coding_shreds : ℕ
  pub position : ℕ

-- A little-endian word at a fixed offset, or a panic.
unfoldable pub word_at {κ} : {E : Type κ} → List ℕ → ℕ → ℕ → Outcome E ℕ
unfolding slice
word_at raw from to = do bytes ← slice raw from to; ok (le_bytes bytes)

module _ {Shred ShredId : Type 0} (l : Ledger Shred ShredId) where
  -- Any error of `try_from` becomes `InvalidShredVariant`.
  unfoldable pub get_shred_variant : List ℕ → Outcome Error ShredVariant
  get_shred_variant shred = elim (get_elem? shred l.signature_bytes) [
    | none ↦ err (invalid_payload_size (length shred))
    | some variant ↦ elim (try_from l.type_byte variant) [
      | ok v ↦ ok v
      | err e ↦ err invalid_shred_variant
      | panicked ↦ panicked
    ]
  ]

  unfoldable pub is_shred_data : List ℕ → Bool
  unfolding get_shred_variant
  is_shred_data raw = elim (get_shred_variant raw) [
    | ok v ↦ is_data_variant v
    | err e ↦ false
    | panicked ↦ false
  ]

  unfoldable pub get_fec_set_index : List ℕ → Outcome ShredError ℕ
  unfolding word_at
  get_fec_set_index raw = word_at raw 0x4f 0x53

  unfoldable pub get_shred_index : List ℕ → Outcome ShredError ℕ
  unfolding word_at
  get_shred_index raw = word_at raw 0x49 0x4d

  -- `ShredFlags::from_bits(flags).map(..).unwrap_or(false)`
  abbrev pub contains_last : Option ℕ → Bool
  contains_last none = false
  contains_last (some flags) = l.flags_contains flags l.last_shred_in_slot

  unfoldable pub get_last_in_slot : List ℕ → Outcome ShredError Bool
  get_last_in_slot raw =
      if is_shred_data raw
      then (do flags ← or_panic (get_elem? raw 0x55); ok (contains_last (l.flags_from_bits flags)))
      else ok false

  unfoldable pub get_coding_shred_header : List ℕ → Outcome ShredError CodingShredHeader
  get_coding_shred_header raw = do
    guard (not (is_shred_data raw)) not_a_coding_shred
    data_count ← word_at raw 0x53 0x55
    coding_count ← word_at raw 0x55 0x57
    position ← word_at raw 0x57 0x59
    ok (record {
      num_data_shreds = data_count;
      num_coding_shreds = coding_count;
      position = position;
    })

  -- `expect("parse flags")` panics on bits that are no flags.
  unfoldable pub get_shred_is_last : List ℕ → Outcome ShredError Bool
  get_shred_is_last raw = elim (get_elem? raw 0x55) [
    | none ↦ err no_flags
    | some bits ↦ do
      flags ← or_panic (l.flags_from_bits bits)
      ok (
          if l.flags_contains flags l.data_complete_shred
          then true
          else l.flags_contains flags l.last_shred_in_slot)
  ]

  -- `deserialize_shred`
  unfoldable pub deserialize_shred : List ℕ → Outcome Error Shred
  deserialize_shred bytes = l.new_from_serialized_shred bytes

-- Block complete, batch complete, and the tick.
unfoldable pub get_shred_data_flags : List ℕ → Outcome ShredError (Bool × Bool × ℕ)
get_shred_data_flags raw = do
  flags ← or_panic (get_elem? raw 0x55)
  ok (not (bit_and flags 0x80 == 0), not (bit_and flags 0x40 == 0), bit_and flags 0x3f)

unfoldable pub get_expected_coding_shreds : ℕ → ℕ
get_expected_coding_shreds n =
    if n == 1
    then 17
    else if n == 2
    then 18
    else if n == 3
    then 19
    else if n == 4
    then 19
    else if n == 5
    then 20
    else if n == 6
    then 21
    else if n == 7
    then 21
    else if n == 8
    then 22
    else if n == 9
    then 23
    else if n == 10
    then 23
    else if n == 11
    then 24
    else if n == 12
    then 24
    else if n == 13
    then 25
    else if n == 14
    then 25
    else if n == 15
    then 26
    else if n == 16
    then 26
    else if n == 17
    then 26
    else if n == 18
    then 27
    else if n == 19
    then 27
    else if n == 20
    then 28
    else if n == 21
    then 28
    else if n == 22
    then 29
    else if n == 23
    then 29
    else if n == 24
    then 29
    else if n == 25
    then 30
    else if n == 26
    then 30
    else if n == 27
    then 31
    else if n == 28
    then 31
    else if n == 29
    then 31
    else if n == 30
    then 32
    else if n == 31
    then 32
    else if n == 32
    then 32
    else if ltb 32 n && leb n 67
    then n
    else 0
