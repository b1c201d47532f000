-- ===== src/Transaction.antt =====
-- What the program reads of solana_sdk's transactions. A public key and a signature are numbers.
use shreds.Base.{ℕ, Bool, Option, List, get_elem?}

pub record CompiledInstruction : Type 0 where
  pub program_id_index : ℕ
  pub accounts : List ℕ
  pub instruction_data : List ℕ

-- A message is of version 0 or a legacy one.
pub record VersionedMessage : Type 0 where
  pub is_v0 : Bool
  pub static_account_keys : List ℕ
  pub instructions : List CompiledInstruction

pub record VersionedTransaction : Type 0 where
  pub signatures : List ℕ
  pub message : VersionedMessage

abbrev pub first_signature : VersionedTransaction → Option ℕ
first_signature tx = get_elem? tx.signatures 0
