-- ===== src/Arb/Pools/Reduce.antt =====
-- What a whole transaction does to the state of the pools.
use shreds.Base.{
  ℕ, ◌≡◌, refl, ap, ◌∙◌, sym, subst, true, false, ◌==◌, nat_eq, List, [], ◌∷◌, get_elem?, Outcome,
  ok, err, panicked, or_panic, >>=-eq-ok, Bool-cases, Option-cases, inl, inr,
}
use shreds.Raydium.Instruction.{
  ProgramError, ParsedAmmInstruction, swap_base_in, swap_base_out, initialize, initialize2,
  monitor_step, deposit, withdraw, migrate_to_open_book, set_params, withdraw_pnl, withdraw_srm,
  pre_initialize, simulate_info, admin_cancel_orders, create_config_account, update_config_account,
  parse_amm_instruction,
}
use shreds.Raydium.Swap.{AmmMath, ParsedAccounts}
use shreds.Transaction.{CompiledInstruction, VersionedMessage, VersionedTransaction}
use shreds.Arb.Pools.{
  PoolsState, get_account_key_safely, apply_instruction, process_raydium_instruction, reduce_parsed,
  reduce_instruction, reduce_instructions, reduce_raydium_amm_tx,
}
use shreds.Arb.Pools.Update.{AllFit, Keeps, update_pool_state_swap-Keeps, ok-inj}

module _ (math : AmmMath) where
  -- A state that returns as it was.
  same :
      (self next : PoolsState)
      → AllFit self
      → ◌≡◌ {A = Outcome ⊥ PoolsState} (ok self) (ok next)
      → Keeps self next × AllFit next
  same self next fit e = subst (λ x. Keeps self x × AllFit x) (ok-inj e) ((refl, refl), fit)

  Keeps-trans : (a b c : PoolsState) → Keeps a b → Keeps b c → Keeps a c
  Keeps-trans a b c (p, q) (r, s) = (
    r ∙ ap {A = PoolsState} {B = PoolsState} (λ x. record x { raydium_pools = c.raydium_pools }) p,
    s ∙ q,
  )

  module _ {Body : Type 0} where
    apply_instruction-Keeps :
        (self next : PoolsState) (parsed : ParsedAmmInstruction Body) (accounts : ParsedAccounts)
        → AllFit self
        → apply_instruction math self parsed accounts ≡ ok next
        → Keeps self next × AllFit next
    unfolding apply_instruction
    apply_instruction-Keeps self next (swap_base_in amount limit) accounts fit e =
        update_pool_state_swap-Keeps math self next accounts amount limit true fit e
    apply_instruction-Keeps self next (swap_base_out amount limit) accounts fit e =
        update_pool_state_swap-Keeps math self next accounts amount limit false fit e
    apply_instruction-Keeps self next (initialize a b) accounts fit e = same self next fit e
    apply_instruction-Keeps self next (initialize2 a b c d) accounts fit e = same self next fit e
    apply_instruction-Keeps self next (monitor_step a) accounts fit e = same self next fit e
    apply_instruction-Keeps self next (deposit a) accounts fit e = same self next fit e
    apply_instruction-Keeps self next (withdraw a) accounts fit e = same self next fit e
    apply_instruction-Keeps self next migrate_to_open_book accounts fit e = same self next fit e
    apply_instruction-Keeps self next (set_params a) accounts fit e = same self next fit e
    apply_instruction-Keeps self next withdraw_pnl accounts fit e = same self next fit e
    apply_instruction-Keeps self next (withdraw_srm a) accounts fit e = same self next fit e
    apply_instruction-Keeps self next (pre_initialize a) accounts fit e = same self next fit e
    apply_instruction-Keeps self next (simulate_info a) accounts fit e = same self next fit e
    apply_instruction-Keeps self next (admin_cancel_orders a) accounts fit e = same self next fit e
    apply_instruction-Keeps self next create_config_account accounts fit e = same self next fit e
    apply_instruction-Keeps self next (update_config_account a) accounts fit e =
        same self next fit e

    process_raydium_instruction-Keeps :
        (self next : PoolsState) (parsed : ParsedAmmInstruction Body)
        (instruction : CompiledInstruction) (message : VersionedMessage)
        → AllFit self
        → process_raydium_instruction math self parsed instruction message ≡ ok next
        → Keeps self next × AllFit next
    unfolding process_raydium_instruction
    process_raydium_instruction-Keeps self next parsed instruction message fit e =
        elim (Option-cases (get_account_key_safely message instruction 1)) [
          | inl p ↦ same self next fit (rw (sym e) (rw (process_raydium_instruction, p) refl))
          | inr (amm_id, p) ↦ elim (Option-cases (get_account_key_safely message instruction 5)) [
            | inl q ↦ same self next fit (rw (sym e) (rw (process_raydium_instruction, p, q) refl))
            | inr (coin, q) ↦ elim (Option-cases (get_account_key_safely message instruction 6)) [
              | inl r ↦
                  same self next fit (rw (sym e) (rw (process_raydium_instruction, p, q, r) refl))
              | inr (pc, r) ↦
                  apply_instruction-Keeps self next parsed
                    (record { amm_id = amm_id; pool_coin_vault = coin; pool_pc_vault = pc }) fit
                    (rw (sym e) (rw (process_raydium_instruction, p, q, r) refl))
            ]
          ]
        ]

    reduce_parsed-Keeps :
        (tx : VersionedTransaction) (instruction : CompiledInstruction) (self next : PoolsState)
        (parsed : Outcome ProgramError (ParsedAmmInstruction Body))
        → AllFit self
        → reduce_parsed math tx instruction self parsed ≡ ok next
        → Keeps self next × AllFit next
    unfolding reduce_parsed
    reduce_parsed-Keeps tx instruction self next (ok parsed) fit e =
        let (signature, p, q) = >>=-eq-ok (or_panic (get_elem? tx.signatures 0)) _ e in
        process_raydium_instruction-Keeps self next parsed instruction tx.message fit q
    reduce_parsed-Keeps tx instruction self next (err x) fit e = same self next fit e
    reduce_parsed-Keeps tx instruction self next panicked fit e = cc

  module _ (Body : Type 0) (raydium_amm : ℕ) where
    reduce_instruction-Keeps :
        (tx : VersionedTransaction) (instruction : CompiledInstruction) (self next : PoolsState)
        → AllFit self
        → reduce_instruction math Body raydium_amm tx instruction self ≡ ok next
        → Keeps self next × AllFit next
    unfolding reduce_instruction
    reduce_instruction-Keeps tx instruction self next fit e =
        let (program_id, p, q) =
          >>=-eq-ok
            (or_panic (get_elem? tx.message.static_account_keys instruction.program_id_index)) _
            e in
        elim (Bool-cases (program_id == raydium_amm)) [
          | inl ours ↦
              reduce_parsed-Keeps tx instruction self next
                (parse_amm_instruction {Body = Body} instruction.instruction_data) fit
                (rw (sym q) (rw ours refl))
          | inr other ↦ same self next fit (rw (sym q) (rw other refl))
        ]

    reduce_instructions-Keeps :
        (tx : VersionedTransaction) (instructions : List CompiledInstruction)
        (self next : PoolsState)
        → AllFit self
        → reduce_instructions math Body raydium_amm tx instructions self ≡ ok next
        → Keeps self next × AllFit next
    unfolding reduce_instructions
    reduce_instructions-Keeps tx [] self next fit e = same self next fit e
    reduce_instructions-Keeps tx (instruction ∷ instructions) self next fit e =
        let (middle, p, q) =
          >>=-eq-ok (reduce_instruction math Body raydium_amm tx instruction self) _ e in
        let (kept, fit') = reduce_instruction-Keeps tx instruction self middle fit p in
        let (kept', fit'') = reduce_instructions-Keeps tx instructions middle next fit' q in
        (Keeps-trans self middle next kept kept', fit'')

    -- Whatever the instructions of a transaction, a reduction that returns has kept every field of the
    -- state but the pools, and of them the keys, their order and all but the two amounts; and the
    -- amounts are words if they were.
    pub reduce_raydium_amm_tx-Keeps :
        (self next : PoolsState) (tx : VersionedTransaction)
        → AllFit self
        → reduce_raydium_amm_tx math Body raydium_amm self tx ≡ ok next
        → Keeps self next × AllFit next
    unfolding reduce_raydium_amm_tx
    reduce_raydium_amm_tx-Keeps self next tx fit e =
        reduce_instructions-Keeps tx tx.message.instructions self next fit e
