-- ===== src/Raydium/Swap.antt =====
-- src/raydium.rs: the state of a pool, `calculate_price` and `swap_exact_amount`.
pub mod Fee
use shreds.Base.{
  ℕ, ◌+◌, ◌-◌, ◌*◌, ◌/◌, ◌%◌, ◌^◌, ◌≤◌, ◌<◌, ◌≡◌, Bool, true, false, ◌==◌, nat_eq, ltb, leb,
  if◌then◌else◌, Option, none, some, Outcome, ok, err, panicked, or_panic, ◌>>=◌,
}
use shreds.Base.Words.{u64_mod, u128_mod}

-- `raydium_amm::math::SwapDirection`
pub data SwapDirection : Type 0 where
  pc2_coin coin2_pc : SwapDirection

-- What the program takes from `raydium_amm::math`. The calculator may panic.
pub record AmmMath : Type 0 where
  pub checked_ceil_div : ℕ → ℕ → Option (ℕ × ℕ)
  pub swap_token_amount_base_in : ℕ → ℕ → ℕ → SwapDirection → Outcome ⊥ ℕ
  pub swap_token_amount_base_out : ℕ → ℕ → ℕ → SwapDirection → Outcome ⊥ ℕ

-- `checked_ceil_div` gives a quotient for a divisor that is not 0, which is less than one unit away from
-- the exact one.
pub record DividesUp (math : AmmMath) : Type 0 where
  pub quotient :
      (a b : ℕ)
      → 0 < b
      → (q r : ℕ) × (math.checked_ceil_div a b ≡ some (q, r)) × (q * b < a + b) × (a < q * b + b)

-- `raydium_library::amm::AmmKeys` as the program builds it, and the fields of `CalculateResult` that it
-- reads.
pub record AmmKeys : Type 0 where
  pub amm_pool : ℕ
  pub amm_coin_mint : ℕ
  pub amm_pc_mint : ℕ
  pub amm_authority : ℕ
  pub amm_target : ℕ
  pub amm_coin_vault : ℕ
  pub amm_pc_vault : ℕ
  pub amm_lp_mint : ℕ
  pub amm_open_order : ℕ
  pub market_program : ℕ
  pub market : ℕ
  pub nonce : ℕ

pub record CalculateResult : Type 0 where
  pub pool_pc_vault_amount : ℕ
  pub pool_coin_vault_amount : ℕ
  pub swap_fee_numerator : ℕ
  pub swap_fee_denominator : ℕ

pub record ParsedAccounts : Type 0 where
  pub amm_id : ℕ
  pub pool_coin_vault : ℕ
  pub pool_pc_vault : ℕ

pub record RaydiumDecimals : Type 0 where
  pub coin_decimals : ℕ
  pub pc_decimals : ℕ
  pub lp_decimals : ℕ

pub record RaydiumAmmPool : Type 0 where
  pub token : ℕ
  pub amm_keys : AmmKeys
  pub state : CalculateResult
  pub decimals : RaydiumDecimals

-- The division of Rust, and `10u64.pow` as a release build computes it.
abbrev pub div : ℕ → ℕ → Outcome ⊥ ℕ
div a b = if b == 0 then panicked else ok (a / b)

abbrev pub pow10 : ℕ → ℕ
pow10 decimals = 10 ^ decimals % u64_mod

unfoldable pub calculate_price : CalculateResult → RaydiumDecimals → Outcome ⊥ (Option ℕ)
calculate_price state decimals = if state.pool_coin_vault_amount == 0 then ok none else (do
  pc ← div state.pool_pc_vault_amount (pow10 decimals.pc_decimals)
  coin ← div state.pool_coin_vault_amount (pow10 decimals.coin_decimals)
  price ← div pc coin
  ok (some price))

-- `U128::checked_mul`, `checked_sub` and `as_u64`.
abbrev pub checked_mul : ℕ → ℕ → Option ℕ
checked_mul a b = if ltb (a * b) u128_mod then some (a * b) else none

abbrev pub checked_sub : ℕ → ℕ → Option ℕ
checked_sub a b = if leb b a then some (a - b) else none

abbrev pub as_u64 : ℕ → Outcome ⊥ ℕ
as_u64 n = if ltb n u64_mod then ok n else panicked

module _ (math : AmmMath) where
  -- The two branches of `swap_exact_amount`, after the amounts of the vaults and the fee.
  unfoldable pub base_in : ℕ → ℕ → ℕ → ℕ → SwapDirection → ℕ → Outcome ⊥ ℕ
  base_in pc coin numerator denominator direction amount = do
    product ← or_panic (checked_mul amount numerator)
    (swap_fee, rest) ← or_panic (math.checked_ceil_div product denominator)
    swap_in_after_deduct_fee ← or_panic (checked_sub amount swap_fee)
    out ← math.swap_token_amount_base_in swap_in_after_deduct_fee pc coin direction
    as_u64 out

  unfoldable pub base_out : ℕ → ℕ → ℕ → ℕ → SwapDirection → ℕ → Outcome ⊥ ℕ
  base_out pc coin numerator denominator direction amount = do
    swap_in_before_add_fee ← math.swap_token_amount_base_out amount pc coin direction
    product ← or_panic (checked_mul swap_in_before_add_fee denominator)
    divisor ← or_panic (checked_sub denominator numerator)
    (swap_in, rest) ← or_panic (math.checked_ceil_div product divisor)
    as_u64 swap_in

  unfoldable pub swap_exact_amount : ℕ → ℕ → ℕ → ℕ → SwapDirection → ℕ → Bool → Outcome ⊥ ℕ
  swap_exact_amount pc coin numerator denominator direction amount swap_base_in =
      if swap_base_in
      then base_in pc coin numerator denominator direction amount
      else base_out pc coin numerator denominator direction amount
