-- ===== src/Shred/Header/Fields.antt =====
-- What the readers of header fields return, and when they panic.
use shreds.Base.{
  ℕ, ◌+◌, ◌-◌, ◌^◌, ◌≤◌, ◌<◌, ◌≡◌, ◌↔◌, ◌⊎◌, refl, ap, subst, ◌∙◌, Bool, true, false, not, ◌==◌,
  nat_eq, leb, le→leb, leb→le, if◌then◌else◌, some, List, ◌++◌, get_elem?, length, take, drop,
  take-append, drop-append, length-append, ok, err, panicked, bit_and, arith, inl, inr, Bool-cases,
}
use shreds.Base.Bits.{high_nibble, bit_six, bit_seven, low_six_bits}
use shreds.Base.Bytes.{
  slice, le_bytes, to_le_bytes, slice-eq_ok, length-to_le_bytes, le_bytes-to_le_bytes,
}
use shreds.Ledger.{Ledger, IsDocumented}
use shreds.Variant.{try_from, merkle_variant}
use shreds.Shred.Header.{
  ShredError, not_a_coding_shred, CodingShredHeader, word_at, is_shred_data,
  get_coding_shred_header, get_shred_data_flags,
}

-- A word that stands at an offset is read back from there.
pub word_at-append :
    {E : Type 0} (front rest : List ℕ) (from k n : ℕ)
    → length front ≡ from
    → n < 256 ^ k
    → word_at {E = E} (front ++ (to_le_bytes k n ++ rest)) from (from + k) ≡ ok n
unfolding word_at
word_at-append {E} front rest from k n e h = subst goal e (
    rw
      (
        slice-eq_ok (front ++ (word ++ rest)) (length front) (length front + k) (omega arith) fits,
        width,
      )
      (rw (drop-append front (word ++ rest))
        (ap ok (ap le_bytes taken ∙ le_bytes-to_le_bytes k n h))))
  where
    word : List ℕ
    word = to_le_bytes k n

    goal : ℕ → Type 0
    goal i = word_at {E = E} (front ++ (word ++ rest)) i (i + k) ≡ ok n

    fits : length front + k ≤ length (front ++ (word ++ rest))
    fits =
        omega (
          arith,
          length-append front (word ++ rest),
          length-append word rest,
          length-to_le_bytes k n,
        )

    width : length front + k - length front ≡ k
    width = omega arith

    taken : take k (word ++ rest) ≡ word
    taken =
        subst (λ j. take j (word ++ rest) ≡ word) (length-to_le_bytes k n) (take-append word rest)

-- A word is read or the read panics, as the slice fits or does not.
pub word_at_cases :
    {E : Type 0} (raw : List ℕ) (from k : ℕ)
    → ((from + k ≤ length raw)
        × (word_at {E = E} raw from (from + k) ≡ ok (le_bytes (take k (drop from raw)))))
      ⊎ ((length raw < from + k) × (word_at {E = E} raw from (from + k) ≡ panicked))
unfolding word_at slice
word_at_cases raw from k = elim (Bool-cases (leb (from + k) (length raw))) [
  | inl fits ↦ inl (leb→le _ _ fits, rw (le→leb from (from + k) (omega arith), fits, width) refl)
  | inr short ↦ inr (ground arith, rw (le→leb from (from + k) (omega arith), short) refl)
]
  where
    width : from + k - from ≡ k
    width = omega arith

-- The three counts, each a little-endian word of two bytes.
abbrev pub header_of : List ℕ → CodingShredHeader
header_of raw = record {
  num_data_shreds = le_bytes (take 2 (drop 0x53 raw));
  num_coding_shreds = le_bytes (take 2 (drop 0x55 raw));
  position = le_bytes (take 2 (drop 0x57 raw));
}

module _ {Shred ShredId : Type 0} (l : Ledger Shred ShredId) where
  -- With the constants as documented, a raw shred is taken for data exactly if the byte behind its
  -- signature is 0xa5, from 0x80 to 0x9f, or from 0xb0 to 0xbf.
  pub is_shred_data_iff :
      IsDocumented l
      → (raw : List ℕ) (b : ℕ) → get_elem? raw 64 ≡ some b
      → b < 256
      → (is_shred_data l raw ≡ true) ↔ ((b ≡ 0xa5) ⊎ (0x80 ≤ b × b < 0xa0) ⊎ (0xb0 ≤ b × b < 0xc0))
  unfolding is_shred_data try_from merkle_variant
  is_shred_data_iff doc raw b e h =
      ground (arith, doc.signature_length, doc.code_byte, doc.data_byte, high_nibble b h)

  -- The coding header is refused on a data shred. On any other it is read from 0x59 bytes or more,
  -- and the read panics on fewer.
  pub get_coding_shred_header_cases :
      (raw : List ℕ)
      → ((is_shred_data l raw ≡ true) × (get_coding_shred_header l raw ≡ err not_a_coding_shred))
        ⊎ ((is_shred_data l raw ≡ false)
            × (length raw < 0x59)
            × (get_coding_shred_header l raw ≡ panicked))
        ⊎ ((is_shred_data l raw ≡ false)
            × (0x59 ≤ length raw)
            × (get_coding_shred_header l raw ≡ ok (header_of raw)))
  unfolding get_coding_shred_header
  get_coding_shred_header_cases raw = elim (Bool-cases (is_shred_data l raw)) [
    | inl data_shred ↦ inl (data_shred, rw data_shred)
    | inr coding ↦ elim (word_at_cases {E = ShredError} raw 0x53 2) [
      | inr (short, p) ↦ inr (inl (coding, omega arith, rw (coding, p)))
      | inl (_, p) ↦ elim (word_at_cases {E = ShredError} raw 0x55 2) [
        | inr (short, q) ↦ inr (inl (coding, omega arith, rw (coding, p, q)))
        | inl (_, q) ↦ elim (word_at_cases {E = ShredError} raw 0x57 2) [
          | inr (short, r) ↦ inr (inl (coding, short, rw (coding, p, q, r)))
          | inl (fits, r) ↦ inr (inr (coding, fits, rw (coding, p, q, r)))
        ]
      ]
    ]
  ]

-- Where there is a byte at 0x55, the three flags are read and make up that byte.
pub get_shred_data_flags_lem :
    (raw : List ℕ) (b : ℕ)
    → get_elem? raw 0x55 ≡ some b
    → b < 256
    → (block batch : Bool) × (tick : ℕ) × (get_shred_data_flags raw ≡ ok (block, batch, tick))
      × (tick < 64)
      × (b ≡ (if block then 128 else 0) + (if batch then 64 else 0) + tick)
unfolding get_shred_data_flags
get_shred_data_flags_lem raw b e h = (
  not (bit_and b 0x80 == 0),
  not (bit_and b 0x40 == 0),
  bit_and b 0x3f,
  rw e,
  omega (arith, low_six_bits b h),
  ground (arith, low_six_bits b h, bit_six b h, bit_seven b h),
)
