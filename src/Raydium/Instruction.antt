-- ===== src/Raydium/Instruction.antt =====
-- src/raydium.rs: `parse_amm_instruction` and the two readers below it.
pub mod Parse
use shreds.Base.{
  ℕ, ◌<◌, Bool, true, false, ◌==◌, nat_eq, leb, if◌then◌else◌, List, [], ◌∷◌, take, drop, length,
  Outcome, ok, err, panicked, ◌>>=◌,
}
use shreds.Base.Bytes.{le_bytes}

-- `solana_program::program_error::ProgramError`: the one value that the program builds.
pub data ProgramError : Type 0 where
  invalid_instruction_data : ProgramError

-- The instructions whose bodies the raydium crate declares and no code here builds hold a value of
-- `Body`. The fields of `initialize2` are `nonce`, `open_time`, `init_pc_amount`, `init_coin_amount`.
pub data ParsedAmmInstruction (Body : Type 0) : Type 0 where
  initialize : ℕ → ℕ → ParsedAmmInstruction Body
  initialize2 : ℕ → ℕ → ℕ → ℕ → ParsedAmmInstruction Body
  monitor_step deposit withdraw : Body → ParsedAmmInstruction Body
  migrate_to_open_book : ParsedAmmInstruction Body
  set_params : Body → ParsedAmmInstruction Body
  withdraw_pnl : ParsedAmmInstruction Body
  withdraw_srm : Body → ParsedAmmInstruction Body
  swap_base_in : ℕ → ℕ → ParsedAmmInstruction Body
  pre_initialize : Body → ParsedAmmInstruction Body
  swap_base_out : ℕ → ℕ → ParsedAmmInstruction Body
  simulate_info admin_cancel_orders : Body → ParsedAmmInstruction Body
  create_config_account : ParsedAmmInstruction Body
  update_config_account : Body → ParsedAmmInstruction Body

unfoldable pub unpack_u8 : List ℕ → Outcome ProgramError (ℕ × List ℕ)
unpack_u8 [] = err invalid_instruction_data
unpack_u8 (amount ∷ rest) = ok (amount, rest)

unfoldable pub unpack_u64 : List ℕ → Outcome ProgramError (ℕ × List ℕ)
unpack_u64 input =
    if leb 8 (length input)
    then ok (le_bytes (take 8 input), drop 8 input)
    else err invalid_instruction_data

module _ {Body : Type 0} where
  abbrev pub parse_initialize : List ℕ → Outcome ProgramError (ParsedAmmInstruction Body)
  parse_initialize rest = do
    (nonce, rest) ← unpack_u8 rest
    (open_time, rest) ← unpack_u64 rest
    ok (initialize nonce open_time)

  abbrev pub parse_initialize2 : List ℕ → Outcome ProgramError (ParsedAmmInstruction Body)
  parse_initialize2 rest = do
    (nonce, rest) ← unpack_u8 rest
    (open_time, rest) ← unpack_u64 rest
    (init_pc_amount, rest) ← unpack_u64 rest
    (init_coin_amount, rest) ← unpack_u64 rest
    ok (initialize2 nonce open_time init_pc_amount init_coin_amount)

  abbrev pub parse_swap_base_in : List ℕ → Outcome ProgramError (ParsedAmmInstruction Body)
  parse_swap_base_in rest = do
    (amount_in, rest) ← unpack_u64 rest
    (minimum_amount_out, rest) ← unpack_u64 rest
    ok (swap_base_in amount_in minimum_amount_out)

  abbrev pub parse_swap_base_out : List ℕ → Outcome ProgramError (ParsedAmmInstruction Body)
  parse_swap_base_out rest = do
    (max_amount_in, rest) ← unpack_u64 rest
    (amount_out, rest) ← unpack_u64 rest
    ok (swap_base_out max_amount_in amount_out)

  unfoldable pub parse_amm_instruction : List ℕ → Outcome ProgramError (ParsedAmmInstruction Body)
  parse_amm_instruction [] = err invalid_instruction_data
  parse_amm_instruction (tag ∷ rest) =
      if tag == 0
      then parse_initialize rest
      else if tag == 1
      then parse_initialize2 rest
      else if tag == 9
      then parse_swap_base_in rest
      else if tag == 11
      then parse_swap_base_out rest
      else err invalid_instruction_data
