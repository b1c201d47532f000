-- ===== src/Raydium/Examples.antt =====
-- The theorems on Raydium's instructions and swaps at concrete inputs.
use shreds.Base.{
  ℕ, ◌+◌, ◌*◌, ◌-◌, ◌/◌, ◌^◌, ◌≤◌, ◌<◌, ◌≡◌, ◌⊎◌, true, List, [], ◌∷◌, ◌++◌, ok, panicked, some,
  none, ◌>>=◌, arith,
}
use shreds.Base.Bytes.{to_le_bytes}
use shreds.Sample.{amm_math, amm_math-DividesUp, pool}
use shreds.Raydium.Instruction.{swap_base_in, swap_base_out, parse_amm_instruction}
use shreds.Raydium.Instruction.Parse.{parse_amm_instruction-encode}
use shreds.Raydium.Swap.{coin2_pc, CalculateResult, as_u64, calculate_price, swap_exact_amount}
use shreds.Raydium.Swap.Fee.{swap_exact_amount-fee, calculate_price_cases}

abbrev words : List ℕ
words = to_le_bytes 8 1000 ++ (to_le_bytes 8 7 ++ (3 ∷ []))

parse_amm_instruction-encode_example :
    (parse_amm_instruction {Body = ℕ} (9 ∷ words) ≡ ok (swap_base_in 1000 7))
    × (parse_amm_instruction {Body = ℕ} (11 ∷ words) ≡ ok (swap_base_out 1000 7))
parse_amm_instruction-encode_example =
    parse_amm_instruction-encode {Body = ℕ} 1000 7 (3 ∷ []) (omega arith) (omega arith)

swap_exact_amount-fee_example :
    (fee rest : ℕ) × (amm_math.checked_ceil_div (1000 * 25) 10000 ≡ some (fee, rest))
    × (fee * 10000 < 1000 * 25 + 10000)
    × (1000 * 25 < fee * 10000 + 10000)
    × (fee ≤ 1000)
    × (swap_exact_amount amm_math 9000 500 25 10000 coin2_pc 1000 true
        ≡ (amm_math.swap_token_amount_base_in (1000 - fee) 9000 500 coin2_pc >>= as_u64))
swap_exact_amount-fee_example =
    swap_exact_amount-fee amm_math amm_math-DividesUp 9000 500 25 10000 coin2_pc 1000 (omega arith)
      (omega arith) (omega arith) (omega arith)

-- Nine coins of a pool whose unit is ten.
abbrev dust : CalculateResult
dust = record pool.state { pool_coin_vault_amount = 9 }

calculate_price_cases_example :
    let coin = dust.pool_coin_vault_amount in
    ((coin ≡ 0) × (calculate_price dust pool.decimals ≡ ok none))
    ⊎ ((0 < coin) × (coin < 10 ^ 1) × (calculate_price dust pool.decimals ≡ panicked))
    ⊎ ((10 ^ 1 ≤ coin)
        × (calculate_price dust pool.decimals ≡ ok (some (9000 / (10 ^ 2) / (coin / (10 ^ 1))))))
calculate_price_cases_example = calculate_price_cases dust pool.decimals (omega arith) (omega arith)
