-- ===== src/Arb/Examples.antt =====
-- The theorems on the pools and the entries at a sample swap.
use shreds.Base.{ℕ, ◌≡◌, refl, true, ok, some, nat_eq, arith}
use shreds.Base.Assoc.{lookup, insert}
use shreds.Base.Bytes.{le_bytes}
use shreds.Sample.{amm_math, pool, pools_state, swap_tx, pools_state_after}
use shreds.Raydium.Instruction.{parse_amm_instruction, unpack_u64}
use shreds.Raydium.Swap.{
  ParsedAccounts, RaydiumAmmPool, swap_exact_amount, base_in, calculate_price,
}
use shreds.Arb.Pools.{
  vaults_match, swapped_amounts, swap_pool, update_pool_state_swap, get_account_key_safely,
  apply_instruction, process_raydium_instruction, reduce_parsed, reduce_instruction,
  reduce_instructions, reduce_raydium_amm_tx,
}
use shreds.Arb.Pools.Update.{
  Fits, Moves, Swaps, config, Keeps, AllFit, update_pool_state_swap-Moves,
}
use shreds.Arb.Pools.Reduce.{reduce_raydium_amm_tx-Keeps}

abbrev accounts : ParsedAccounts
accounts = record { amm_id = 10; pool_coin_vault = 11; pool_pc_vault = 12 }

swaps : update_pool_state_swap amm_math pools_state accounts 100 90 true ≡ ok pools_state_after
unfolding update_pool_state_swap lookup insert vaults_match swap_pool swapped_amounts
    swap_exact_amount base_in calculate_price
swaps = refl

known_pool : lookup 10 pools_state.raydium_pools ≡ some pool
unfolding lookup
known_pool = refl

same_vaults : vaults_match pool accounts ≡ true
unfolding vaults_match
same_vaults = refl

update_pool_state_swap-Moves_example :
    (pool' : RaydiumAmmPool) × (lookup 10 pools_state_after.raydium_pools ≡ some pool')
    × (config pool' ≡ config pool)
    × Fits pool'
    × Moves true pool pool'
    × Swaps amm_math 100 90 true pool pool'
update_pool_state_swap-Moves_example =
    update_pool_state_swap-Moves amm_math pools_state pools_state_after accounts pool 100 90 true
      known_pool same_vaults (omega arith, omega arith) swaps

reduces : reduce_raydium_amm_tx amm_math ℕ 92 pools_state swap_tx ≡ ok pools_state_after
unfolding reduce_raydium_amm_tx reduce_instructions reduce_instruction reduce_parsed
    process_raydium_instruction apply_instruction get_account_key_safely parse_amm_instruction
    unpack_u64 le_bytes update_pool_state_swap lookup insert vaults_match swap_pool swapped_amounts
    swap_exact_amount base_in calculate_price
reduces = refl

reduce_raydium_amm_tx-Keeps_example : Keeps pools_state pools_state_after × AllFit pools_state_after
reduce_raydium_amm_tx-Keeps_example =
    reduce_raydium_amm_tx-Keeps amm_math ℕ 92 pools_state pools_state_after swap_tx
      ((omega arith, omega arith), tt) reduces
