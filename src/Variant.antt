-- ===== src/Variant.antt =====
-- src/structs.rs: the byte of a shred header that says which kind of shred follows.
pub mod RoundTrip
mod Examples
use shreds.Base.{
  ℕ, Bool, true, false, ◌==◌, nat_eq, if◌then◌else◌, Outcome, ok, err, panicked, bit_and, bit_or,
}
use shreds.Ledger.{ShredType, code, data_type, Error, invalid_shred_variant}

-- The fields are `proof_size`, `chained` and `resigned`.
pub data ShredVariant : Type 0 where
  legacy_code : ShredVariant
  legacy_data : ShredVariant
  merkle_code : ℕ → Bool → Bool → ShredVariant
  merkle_data : ℕ → Bool → Bool → ShredVariant

-- `From<ShredVariant> for ShredType`
unfoldable pub shred_type : ShredVariant → ShredType
shred_type legacy_code = code
shred_type legacy_data = data_type
shred_type (merkle_code proof_size chained resigned) = code
shred_type (merkle_data proof_size chained resigned) = data_type

-- `From<ShredVariant> for u8`
unfoldable pub to_u8 : ShredVariant → Outcome Error ℕ
to_u8 legacy_code = ok 0x5a
to_u8 legacy_data = ok 0xa5
to_u8 (merkle_code proof_size false false) = ok (bit_or proof_size 0x40)
to_u8 (merkle_code proof_size true false) = ok (bit_or proof_size 0x60)
to_u8 (merkle_code proof_size true true) = ok (bit_or proof_size 0x70)
to_u8 (merkle_data proof_size false false) = ok (bit_or proof_size 0x80)
to_u8 (merkle_data proof_size true false) = ok (bit_or proof_size 0x90)
to_u8 (merkle_data proof_size true true) = ok (bit_or proof_size 0xb0)
to_u8 (merkle_code proof_size false true) = panicked
to_u8 (merkle_data proof_size false true) = panicked

-- The `match` on the high nibble, which stands in the last branch of `try_from`.
unfoldable pub merkle_variant : ℕ → ℕ → Outcome Error ShredVariant
merkle_variant proof_size high =
    if high == 0x40
    then ok (merkle_code proof_size false false)
    else if high == 0x60
    then ok (merkle_code proof_size true false)
    else if high == 0x70
    then ok (merkle_code proof_size true true)
    else if high == 0x80
    then ok (merkle_data proof_size false false)
    else if high == 0x90
    then ok (merkle_data proof_size true false)
    else if high == 0xb0
    then ok (merkle_data proof_size true true)
    else err invalid_shred_variant

-- `TryFrom<u8> for ShredVariant`, over the bytes that `ShredType` gives its two values.
unfoldable pub try_from : (ShredType → ℕ) → ℕ → Outcome Error ShredVariant
unfolding merkle_variant
try_from type_byte variant =
    if variant == type_byte code
    then ok legacy_code
    else if variant == type_byte data_type
    then ok legacy_data
    else merkle_variant (bit_and variant 0x0f) (bit_and variant 0xf0)
