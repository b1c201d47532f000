-- ===== src/Raydium/Swap/Fee.antt =====
-- The fee of a swap, and when a price can be given.
use shreds.Base.{
  min, ℕ, ◌+◌, ◌-◌, ◌*◌, ◌/◌, ◌^◌, ◌≤◌, ◌<◌, ◌≡◌, ◌⊎◌, inl, inr, refl, true, ◌==◌, nat_eq, ltb, leb,
  lt→ltb, le→leb, none, some, ok, panicked, ◌>>=◌, arith, Bool-cases, leb→le, ltb→lt,
}
use shreds.Base.Bits.{agree, agree_below}
use native.Mathlib.Nat.{div-eq_of_lt, le-div_iff_mul-le, mul-le-mul_right}
use shreds.Base.Words.{u64_mod, u128_mod}
use shreds.Raydium.Swap.{
  SwapDirection, AmmMath, DividesUp, CalculateResult, RaydiumDecimals, pow10, div, calculate_price,
  as_u64, swap_exact_amount, base_in,
}

mul-cancel : (q a d : ℕ) → q * d < a * d + d → q ≤ a
mul-cancel q a d h = elim (Bool-cases (leb q a)) [
  | inl le ↦ leb→le q a le
  | inr gt ↦ absurd (omega (arith, mul-le-mul_right {m = a + 1} {n = q} d (ground arith)))
]

mul-lt : (a b : ℕ) → a < u64_mod → b < u64_mod → a * b < u128_mod
mul-lt a b h k = omega (arith, mul-le-mul_right {m = a} {n = u64_mod} b (omega arith))

pow10-fits : (d : ℕ) → d < 20 → pow10 d ≡ 10 ^ d
unfolding agree
pow10-fits = agree_below _ _ 20 refl

pow10-positive : (d : ℕ) → d < 20 → min 1 (10 ^ d) ≡ 1
unfolding agree
pow10-positive = agree_below _ (λ d. 1) 20 refl

-- Ten to the 19th still fits a word.
pow10_lem : (d : ℕ) → d ≤ 19 → (0 < 10 ^ d) × (pow10 d ≡ 10 ^ d)
pow10_lem d h = (omega (arith, pow10-positive d (omega arith)), pow10-fits d (omega arith))

div_ok : (a b : ℕ) → 0 < b → div a b ≡ ok (a / b)
div_ok a b h = ground arith

module _ (math : AmmMath) where
  -- On exact input, with words for the amount and the denominator, a denominator above 0, a
  -- numerator that is at most the denominator, and a division as documented: the calculator gets the
  -- amount less a fee, with nothing that panics before it, and its result is the result where it is a
  -- word. The fee is the rounded quotient of the amount times the numerator by the denominator: less
  -- than one unit from it either way, and not more than the amount.
  pub swap_exact_amount-fee :
      DividesUp math
      → (pc coin numerator denominator : ℕ) (direction : SwapDirection) (amount : ℕ)
      → amount < u64_mod
      → denominator < u64_mod
      → numerator ≤ denominator
      → 0 < denominator
      → (fee rest : ℕ) × (math.checked_ceil_div (amount * numerator) denominator ≡ some (fee, rest))
        × (fee * denominator < amount * numerator + denominator)
        × (amount * numerator < fee * denominator + denominator)
        × (fee ≤ amount)
        × (swap_exact_amount math pc coin numerator denominator direction amount true
            ≡ (math.swap_token_amount_base_in (amount - fee) pc coin direction >>= as_u64))
  unfolding swap_exact_amount base_in
  swap_exact_amount-fee documented pc coin numerator denominator direction amount h k le pos =
      let (q, r, e, above, below) = documented.quotient (amount * numerator) denominator pos in
      let small = mul-cancel q amount denominator (omega (arith, mul-le-mul_right amount le)) in
      (
        q,
        r,
        e,
        above,
        below,
        small,
        rw
            (
              lt→ltb (amount * numerator) u128_mod (mul-lt amount numerator h (omega arith)),
              e,
              le→leb q amount small,
            )
            refl,
      )

-- With decimals of 19 at most: a pool without coins has no price, one with less than a whole coin
-- makes the division panic, and from a whole coin on the price is the quotient of the whole units.
pub calculate_price_cases :
    (state : CalculateResult) (decimals : RaydiumDecimals)
    → decimals.pc_decimals ≤ 19
    → decimals.coin_decimals ≤ 19
    → let coin = state.pool_coin_vault_amount in
      let unit = 10 ^ decimals.coin_decimals in
      ((coin ≡ 0) × (calculate_price state decimals ≡ ok none))
      ⊎ ((0 < coin) × (coin < unit) × (calculate_price state decimals ≡ panicked))
      ⊎ ((unit ≤ coin)
          × (calculate_price state decimals
              ≡ ok (
                  some (state.pool_pc_vault_amount / (10 ^ decimals.pc_decimals) / (coin / unit)))))
unfolding calculate_price
calculate_price_cases state decimals h k =
    let (pc_pos, pc_unit) = pow10_lem decimals.pc_decimals h in
    let (coin_pos, coin_unit) = pow10_lem decimals.coin_decimals k in
    let pc = state.pool_pc_vault_amount in
    let coin = state.pool_coin_vault_amount in
    let unit = 10 ^ decimals.coin_decimals in
    elim (Bool-cases (coin == 0)) [
      | inl none_left ↦ inl (ground arith, rw none_left refl)
      | inr some_left ↦ elim (Bool-cases (ltb coin unit)) [
        | inl short ↦ inr (
            inl (
              ground arith,
              ltb→lt coin unit short,
              rw
                  (
                    some_left,
                    pc_unit,
                    div_ok pc (10 ^ decimals.pc_decimals) pc_pos,
                    coin_unit,
                    div_ok coin unit coin_pos,
                    div-eq_of_lt (ltb→lt coin unit short),
                  )
                  refl,
            ))
        | inr whole ↦ inr (
            inr (
              ground arith,
              rw
                  (
                    some_left,
                    pc_unit,
                    div_ok pc (10 ^ decimals.pc_decimals) pc_pos,
                    coin_unit,
                    div_ok coin unit coin_pos,
                    div_ok (pc / (10 ^ decimals.pc_decimals)) (coin / unit)
                        ((le-div_iff_mul-le coin_pos).1 (ground arith)),
                  )
                  refl,
            ))
      ]
    ]
