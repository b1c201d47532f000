-- ===== src/Variant/RoundTrip.antt =====
-- The byte and the variant determine one another.
use shreds.Base.{
  ℕ, ◌+◌, ◌*◌, ◌%◌, ◌≤◌, ◌<◌, ◌≡◌, ◌↔◌, ◌⊎◌, refl, true, false, nat_eq, ok, err, is_ok, bit_and,
  bit_or, arith,
}
use shreds.Base.Bits.{agree, agree_below, low_nibble, high_nibble}
use shreds.Ledger.{ShredType, code, data_type, invalid_shred_variant}
use shreds.Variant.{
  ShredVariant, legacy_code, legacy_data, merkle_code, merkle_data, to_u8, try_from, merkle_variant,
}

-- A proof size of four bits, and no re-signing without chaining.
abbrev pub IsEncodable : ShredVariant → Type 0
IsEncodable legacy_code = Unit {0}
IsEncodable legacy_data = Unit {0}
IsEncodable (merkle_code n chained resigned) = (n < 16) × (resigned ≡ true → chained ≡ true)
IsEncodable (merkle_data n chained resigned) = (n < 16) × (resigned ≡ true → chained ≡ true)

-- A nibble under each of the six tags.
tagged :
    (n : ℕ)
    → n < 16
    → (bit_or n 0x40 ≡ n + 0x40)
      × (bit_or n 0x60 ≡ n + 0x60)
      × (bit_or n 0x70 ≡ n + 0x70)
      × (bit_or n 0x80 ≡ n + 0x80)
      × (bit_or n 0x90 ≡ n + 0x90)
      × (bit_or n 0xb0 ≡ n + 0xb0)
unfolding agree
tagged n h = (
  agree_below (λ x. bit_or x 0x40) (λ x. x + 0x40) 16 refl n h,
  agree_below (λ x. bit_or x 0x60) (λ x. x + 0x60) 16 refl n h,
  agree_below (λ x. bit_or x 0x70) (λ x. x + 0x70) 16 refl n h,
  agree_below (λ x. bit_or x 0x80) (λ x. x + 0x80) 16 refl n h,
  agree_below (λ x. bit_or x 0x90) (λ x. x + 0x90) 16 refl n h,
  agree_below (λ x. bit_or x 0xb0) (λ x. x + 0xb0) 16 refl n h,
)

-- The nibbles of a tagged byte.
nibbles :
    (n k : ℕ)
    → n < 16
    → k < 16
    → (bit_and (n + k * 16) 0x0f ≡ n) × (bit_and (n + k * 16) 0xf0 ≡ k * 16)
nibbles n k h g = omega (arith, low_nibble (n + k * 16), high_nibble (n + k * 16))

-- Whatever the two legacy bytes are, a byte is accepted or refused.
pub try_from-cases :
    (type_byte : ShredType → ℕ) (b : ℕ)
    → ((v : ShredVariant) × (try_from type_byte b ≡ ok v))
      ⊎ (try_from type_byte b ≡ err invalid_shred_variant)
unfolding try_from merkle_variant
try_from-cases type_byte b = grind arith

module _ (type_byte : ShredType → ℕ) (c : type_byte code ≡ 0x5a)
    (d : type_byte data_type ≡ 0xa5) where
  -- With the two legacy bytes as documented, every encodable variant is written as a byte, and that
  -- byte is read back as the variant.
  pub try_from-to_u8 :
      (v : ShredVariant)
      → IsEncodable v
      → (b : ℕ) × (to_u8 v ≡ ok b) × (b < 256) × (try_from type_byte b ≡ ok v)
  unfolding to_u8 try_from merkle_variant
  try_from-to_u8 legacy_code h = (0x5a, refl, omega arith, ground arith)
  try_from-to_u8 legacy_data h = (0xa5, refl, omega arith, ground arith)
  try_from-to_u8 (merkle_code n false false) h =
      (n + 0x40, ground (arith, tagged n h.0), omega arith, ground (arith, nibbles n 4))
  try_from-to_u8 (merkle_code n true false) h =
      (n + 0x60, ground (arith, tagged n h.0), omega arith, ground (arith, nibbles n 6))
  try_from-to_u8 (merkle_code n true true) h =
      (n + 0x70, ground (arith, tagged n h.0), omega arith, ground (arith, nibbles n 7))
  try_from-to_u8 (merkle_data n false false) h =
      (n + 0x80, ground (arith, tagged n h.0), omega arith, ground (arith, nibbles n 8))
  try_from-to_u8 (merkle_data n true false) h =
      (n + 0x90, ground (arith, tagged n h.0), omega arith, ground (arith, nibbles n 9))
  try_from-to_u8 (merkle_data n true true) h =
      (n + 0xb0, ground (arith, tagged n h.0), omega arith, ground (arith, nibbles n 11))
  try_from-to_u8 (merkle_code n false true) h = absurd (ground (arith, h.1 refl))
  try_from-to_u8 (merkle_data n false true) h = absurd (ground (arith, h.1 refl))

  -- With the two legacy bytes as documented, a byte that is accepted stands for an encodable
  -- variant, which is written as that byte.
  pub to_u8-try_from :
      (b : ℕ) (v : ShredVariant)
      → b < 256
      → try_from type_byte b ≡ ok v
      → IsEncodable v × (to_u8 v ≡ ok b)
  unfolding to_u8 try_from merkle_variant
  to_u8-try_from b v h e = ground (arith, low_nibble b h, high_nibble b h, tagged (b % 16))

  -- With the two legacy bytes as documented, a byte is accepted exactly in the ranges of the six
  -- tags and at the two legacy bytes; any other is refused with `InvalidShredVariant`, and none
  -- panics.
  pub try_from_accepts :
      (b : ℕ)
      → b < 256
      → ((is_ok (try_from type_byte b) ≡ true) ↔ (
          (0x40 ≤ b × b < 0x50)
          ⊎ (b ≡ 0x5a)
          ⊎ (0x60 ≤ b × b < 0xa0)
          ⊎ (b ≡ 0xa5)
          ⊎ (0xb0 ≤ b × b < 0xc0)))
        × ((is_ok (try_from type_byte b) ≡ true)
            ⊎ (try_from type_byte b ≡ err invalid_shred_variant))
  unfolding try_from merkle_variant
  try_from_accepts b h = (
    (ground (arith, high_nibble b h), ground (arith, high_nibble b h)),
    ground (arith, high_nibble b h),
  )
