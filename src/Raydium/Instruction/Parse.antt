-- ===== src/Raydium/Instruction/Parse.antt =====
-- What `parse_amm_instruction` reads, and when it refuses.
use shreds.Base.{
  ℕ, ◌≤◌, ◌<◌, ◌≡◌, ◌⊎◌, ◌↔◌, refl, subst, true, false, nat_eq, List, [], ◌∷◌, ◌++◌, take, drop,
  length, length-append, length-drop, take-append, drop-append, Outcome, ok, err, is_ok, ◌>>=◌,
  arith, inl, inr,
}
use shreds.Base.Words.{u64_mod}
use shreds.Base.Bytes.{le_bytes, to_le_bytes, length-to_le_bytes, le_bytes-to_le_bytes}
use shreds.Raydium.Instruction.{
  ProgramError, invalid_instruction_data, ParsedAmmInstruction, initialize, initialize2,
  swap_base_in, swap_base_out, unpack_u8, unpack_u64, parse_amm_instruction, parse_initialize,
  parse_initialize2,
}

-- A word of eight bytes is read back, with what follows it.
unpack_u64-to_le_bytes :
    (n : ℕ) (rest : List ℕ) → n < u64_mod → unpack_u64 (to_le_bytes 8 n ++ rest) ≡ ok (n, rest)
unfolding unpack_u64
unpack_u64-to_le_bytes n rest h =
    rw (taken, dropped, le_bytes-to_le_bytes 8 n h) (ground (arith, long))
  where
    taken : take 8 (to_le_bytes 8 n ++ rest) ≡ to_le_bytes 8 n
    taken =
        subst (λ k. take k (to_le_bytes 8 n ++ rest) ≡ to_le_bytes 8 n) (length-to_le_bytes 8 n)
          (take-append (to_le_bytes 8 n) rest)

    dropped : drop 8 (to_le_bytes 8 n ++ rest) ≡ rest
    dropped =
        subst (λ k. drop k (to_le_bytes 8 n ++ rest) ≡ rest) (length-to_le_bytes 8 n)
          (drop-append (to_le_bytes 8 n) rest)

    long : 8 ≤ length (to_le_bytes 8 n ++ rest)
    long = omega (arith, length-append (to_le_bytes 8 n) rest, length-to_le_bytes 8 n)

-- The bytes that an instruction is accepted on: a tag that is handled, and a body of its length or more.
abbrev pub IsReadable : ℕ → List ℕ → Type 0
IsReadable tag rest =
    ((tag ≡ 0) × (9 ≤ length rest))
    ⊎ ((tag ≡ 1) × (25 ≤ length rest))
    ⊎ ((tag ≡ 9) × (16 ≤ length rest))
    ⊎ ((tag ≡ 11) × (16 ≤ length rest))

unpack_u64_cases :
    (input : List ℕ)
    → ((8 ≤ length input) × (unpack_u64 input ≡ ok (le_bytes (take 8 input), drop 8 input)))
      ⊎ ((length input < 8) × (unpack_u64 input ≡ err invalid_instruction_data))
unfolding unpack_u64
unpack_u64_cases input = ground arith

-- A reader that takes `n` bytes: it succeeds, or it refuses a shorter input.
abbrev Takes : {A : Type 0} → ℕ → List ℕ → Outcome ProgramError A → Type 0
Takes n input r =
    ((n ≤ length input) × (is_ok r ≡ true))
    ⊎ ((length input < n) × (r ≡ err invalid_instruction_data) × (is_ok r ≡ false))

module _ {Body : Type 0} where
  -- A swap in either form, its tag and two words of eight bytes, is read back with both amounts,
  -- whatever bytes follow.
  pub parse_amm_instruction-encode :
      (amount limit : ℕ) (rest : List ℕ)
      → amount < u64_mod
      → limit < u64_mod
      → (parse_amm_instruction {Body = Body}
            (9 ∷ (to_le_bytes 8 amount ++ (to_le_bytes 8 limit ++ rest)))
          ≡ ok (swap_base_in amount limit))
        × (parse_amm_instruction {Body = Body}
              (11 ∷ (to_le_bytes 8 amount ++ (to_le_bytes 8 limit ++ rest)))
            ≡ ok (swap_base_out amount limit))
  unfolding parse_amm_instruction
  parse_amm_instruction-encode amount limit rest h k = (
    rw
        (
          unpack_u64-to_le_bytes amount (to_le_bytes 8 limit ++ rest) h,
          unpack_u64-to_le_bytes limit rest k,
        )
        refl,
    rw
        (
          unpack_u64-to_le_bytes amount (to_le_bytes 8 limit ++ rest) h,
          unpack_u64-to_le_bytes limit rest k,
        )
        refl,
  )

  -- Both initialize instructions, the tag, the nonce and words of eight bytes, are read back with
  -- all their fields, whatever bytes follow.
  pub parse_amm_instruction-encode_initialize :
      (nonce open_time pc coin : ℕ) (rest : List ℕ)
      → open_time < u64_mod
      → pc < u64_mod
      → coin < u64_mod
      → let words = to_le_bytes 8 open_time ++ (to_le_bytes 8 pc ++ (to_le_bytes 8 coin ++ rest)) in
        (parse_amm_instruction {Body = Body} (0 ∷ nonce ∷ words) ≡ ok (initialize nonce open_time))
        × (parse_amm_instruction {Body = Body} (1 ∷ nonce ∷ words)
            ≡ ok (initialize2 nonce open_time pc coin))
  unfolding parse_amm_instruction unpack_u8
  parse_amm_instruction-encode_initialize nonce open_time pc coin rest h i j = (
    rw (unpack_u64-to_le_bytes open_time (to_le_bytes 8 pc ++ (to_le_bytes 8 coin ++ rest)) h) refl,
    rw
        (
          unpack_u64-to_le_bytes open_time (to_le_bytes 8 pc ++ (to_le_bytes 8 coin ++ rest)) h,
          unpack_u64-to_le_bytes pc (to_le_bytes 8 coin ++ rest) i,
          unpack_u64-to_le_bytes coin rest j,
        )
        refl,
  )

  two_words :
      (input : List ℕ) (f : ℕ → ℕ → ParsedAmmInstruction Body)
      → Takes 16 input (do (a, rest) ← unpack_u64 input; (b, rest) ← unpack_u64 rest; ok (f a b))
  two_words input f = elim (unpack_u64_cases input) [
    | inr (short, p) ↦ inr (omega arith, rw p refl, rw p refl)
    | inl (long, p) ↦ elim (unpack_u64_cases (drop 8 input)) [
      | inr (short, q) ↦ inr (omega (arith, length-drop 8 input), rw (p, q) refl, rw (p, q) refl)
      | inl (more, q) ↦ inl (omega (arith, length-drop 8 input), rw (p, q) refl)
    ]
  ]

  initialize_word : (input : List ℕ) → Takes 9 input (parse_initialize {Body = Body} input)
  unfolding unpack_u8
  initialize_word [] = inr (omega arith, refl, refl)
  initialize_word (nonce ∷ input) = elim (unpack_u64_cases input) [
    | inr (short, p) ↦ inr (omega arith, rw p refl, rw p refl)
    | inl (long, p) ↦ inl (omega arith, rw p refl)
  ]

  initialize2_words : (input : List ℕ) → Takes 25 input (parse_initialize2 {Body = Body} input)
  unfolding unpack_u8
  initialize2_words [] = inr (omega arith, refl, refl)
  initialize2_words (nonce ∷ input) = elim (unpack_u64_cases input) [
    | inr (short, p) ↦ inr (omega arith, rw p refl, rw p refl)
    | inl (long, p) ↦
        elim (two_words (drop 8 input) (initialize2 nonce (le_bytes (take 8 input)))) [
          | inr (short, q, r) ↦ inr (omega (arith, length-drop 8 input), rw p q, rw p r)
          | inl (more, q) ↦ inl (omega (arith, length-drop 8 input), rw p q)
        ]
  ]

  -- An instruction with a tag is accepted exactly where it is readable, and anything else is refused
  -- with the one error, never by a panic.
  pub parse_amm_instruction_iff :
      (tag : ℕ) (rest : List ℕ)
      → ((is_ok (parse_amm_instruction {Body = Body} (tag ∷ rest)) ≡ true) ↔ IsReadable tag rest)
        × ((is_ok (parse_amm_instruction {Body = Body} (tag ∷ rest)) ≡ true)
            ⊎ (parse_amm_instruction {Body = Body} (tag ∷ rest) ≡ err invalid_instruction_data))
  unfolding parse_amm_instruction
  parse_amm_instruction_iff tag rest = ground (
    arith,
    initialize_word rest,
    initialize2_words rest,
    two_words rest swap_base_in,
    two_words rest swap_base_out,
  )
