-- ===== src/Arb/Pools.antt =====
-- src/arb.rs: `PoolsState` and the operations on it.
pub mod Update
pub mod Reduce
pub mod Initialize
use shreds.Base.{
  ℕ, ◌+◌, ◌-◌, ◌%◌, ◌^◌, Bool, true, false, not, ◌&&◌, ◌==◌, nat_eq, if◌then◌else◌, Option, none,
  some, List, [], ◌∷◌, get_elem?, Outcome, ok, err, panicked, or_panic, ◌>>=◌,
}
use shreds.Base.Assoc.{lookup, insert}
use shreds.Base.Words.{u64_mod, saturating_add}
use shreds.Transaction.{CompiledInstruction, VersionedMessage, VersionedTransaction}
use shreds.Raydium.Instruction.{
  ParsedAmmInstruction, swap_base_in, swap_base_out, parse_amm_instruction, ProgramError,
}
use shreds.Raydium.Swap.{
  SwapDirection, pc2_coin, coin2_pc, AmmMath, CalculateResult, ParsedAccounts, RaydiumAmmPool,
  calculate_price, swap_exact_amount,
}

-- The maps are association lists. `OrcaPool` has no fields.
pub record PoolsState : Type 0 where
  pub raydium_cp_count : ℕ
  pub raydium_amm_count : ℕ
  pub orca_count : ℕ
  pub orca_token_to_pool : List (ℕ × Unit {0})
  pub raydium_pools : List (ℕ × RaydiumAmmPool)
  pub raydium_pools_by_mint : List (ℕ × List ℕ)
  pub raydium_pool_ids : List ℕ
  pub signatures : List ℕ

unfoldable pub get_account_key_safely : VersionedMessage → CompiledInstruction → ℕ → Option ℕ
get_account_key_safely message instruction account_index =
    elim (get_elem? instruction.accounts account_index) [
      | none ↦ none
      | some index ↦ get_elem? message.static_account_keys index
    ]

-- The two vaults of the instruction are those of the pool.
unfoldable pub vaults_match : RaydiumAmmPool → ParsedAccounts → Bool
vaults_match pool accounts =
    pool.amm_keys.amm_coin_vault == accounts.pool_coin_vault
    && pool.amm_keys.amm_pc_vault == accounts.pool_pc_vault

abbrev pub set_amounts : RaydiumAmmPool → ℕ × ℕ → RaydiumAmmPool
set_amounts pool amounts = record pool {
  state = record pool.state {
    pool_pc_vault_amount = amounts.0;
    pool_coin_vault_amount = amounts.1;
  };
}

module _ (math : AmmMath) where
  -- The two amounts that a swap leaves, `pc` first. In each branch of the source the inner test of
  -- `is_swap_base_in` repeats the outer one.
  unfoldable pub swapped_amounts : CalculateResult → ℕ → ℕ → Bool → Outcome ⊥ (ℕ × ℕ)
  swapped_amounts state amount_specified other_amount_threshold true = do
    swap_amount_out ←
        swap_exact_amount math state.pool_pc_vault_amount state.pool_coin_vault_amount
          state.swap_fee_numerator state.swap_fee_denominator coin2_pc amount_specified true
    ok (
      saturating_add state.pool_pc_vault_amount swap_amount_out,
      state.pool_coin_vault_amount - amount_specified,
    )
  swapped_amounts state amount_specified other_amount_threshold false = do
    swap_amount_in ←
        swap_exact_amount math state.pool_pc_vault_amount state.pool_coin_vault_amount
          state.swap_fee_numerator state.swap_fee_denominator pc2_coin other_amount_threshold false
    ok (
      state.pool_pc_vault_amount - swap_amount_in,
      saturating_add state.pool_coin_vault_amount other_amount_threshold,
    )

  -- The body for a known pool whose vaults match. Both prices are computed for the log, from the new amounts.
  unfoldable pub swap_pool : RaydiumAmmPool → ℕ → ℕ → Bool → Outcome ⊥ RaydiumAmmPool
  swap_pool pool amount_specified other_amount_threshold is_swap_base_in = do
    amounts ← swapped_amounts pool.state amount_specified other_amount_threshold is_swap_base_in
    initial_price ← calculate_price (set_amounts pool amounts).state pool.decimals
    new_price ← calculate_price (set_amounts pool amounts).state pool.decimals
    ok (set_amounts pool amounts)

  unfoldable pub update_pool_state_swap :
      PoolsState → ParsedAccounts → ℕ → ℕ → Bool → Outcome ⊥ PoolsState
  update_pool_state_swap self accounts amount_specified other_amount_threshold is_swap_base_in =
      elim (lookup accounts.amm_id self.raydium_pools) [
        | none ↦ ok self
        | some pool ↦ if not (vaults_match pool accounts) then ok self else (do
          pool' ← swap_pool pool amount_specified other_amount_threshold is_swap_base_in
          ok (record self { raydium_pools = insert accounts.amm_id pool' self.raydium_pools }))
      ]

  module _ {Body : Type 0} where
    -- The `match` on the parsed instruction.
    unfoldable pub apply_instruction :
        PoolsState → ParsedAmmInstruction Body → ParsedAccounts → Outcome ⊥ PoolsState
    apply_instruction self (swap_base_out max_amount_in amount_out) accounts =
        update_pool_state_swap self accounts max_amount_in amount_out false
    apply_instruction self (swap_base_in amount_in minimum_amount_out) accounts =
        update_pool_state_swap self accounts amount_in minimum_amount_out true
    apply_instruction self _ accounts = ok self

    unfoldable pub process_raydium_instruction :
        PoolsState
        → ParsedAmmInstruction Body
        → CompiledInstruction
        → VersionedMessage
        → Outcome ⊥ PoolsState
    process_raydium_instruction self parsed instruction message =
        elim (get_account_key_safely message instruction 1) [
          | none ↦ ok self
          | some amm_id ↦ elim (get_account_key_safely message instruction 5) [
            | none ↦ ok self
            | some coin_vault ↦ elim (get_account_key_safely message instruction 6) [
              | none ↦ ok self
              | some pc_vault ↦ apply_instruction self parsed (record {
                amm_id = amm_id;
                pool_coin_vault = coin_vault;
                pool_pc_vault = pc_vault;
              })
            ]
          ]
        ]

    -- One round of the loop of `reduce_raydium_amm_tx`; `&tx.signatures[0]` is taken once an instruction
    -- was parsed, and an instruction that is refused is logged.
    unfoldable pub reduce_parsed :
        VersionedTransaction
        → CompiledInstruction
        → PoolsState
        → Outcome ProgramError (ParsedAmmInstruction Body)
        → Outcome ⊥ PoolsState
    reduce_parsed tx instruction self (ok parsed) = do
      signature ← or_panic (get_elem? tx.signatures 0)
      process_raydium_instruction self parsed instruction tx.message
    reduce_parsed tx instruction self (err e) = ok self
    reduce_parsed tx instruction self panicked = panicked

  module _ (Body : Type 0) (raydium_amm : ℕ) where
    unfoldable pub reduce_instruction :
        VersionedTransaction → CompiledInstruction → PoolsState → Outcome ⊥ PoolsState
    reduce_instruction tx instruction self = do
      program_id ← or_panic (get_elem? tx.message.static_account_keys instruction.program_id_index)
      (if program_id == raydium_amm
          then reduce_parsed tx instruction self
              (parse_amm_instruction {Body = Body} instruction.instruction_data)
          else ok self)

    unfoldable pub reduce_instructions :
        VersionedTransaction → List CompiledInstruction → PoolsState → Outcome ⊥ PoolsState
    reduce_instructions tx [] self = ok self
    reduce_instructions tx (instruction ∷ instructions) self =
        reduce_instruction tx instruction self >>= reduce_instructions tx instructions

    unfoldable pub reduce_raydium_amm_tx : PoolsState → VersionedTransaction → Outcome ⊥ PoolsState
    reduce_raydium_amm_tx self tx = reduce_instructions tx tx.message.instructions self
