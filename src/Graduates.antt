-- ===== src/Graduates.antt =====
-- src/graduates_processor.rs: the signatures of transactions that migrate a token to Raydium.
pub mod Filter
mod Examples
use shreds.Base.{
  ℕ, Bool, true, false, ◌&&◌, ◌==◌, nat_eq, if◌then◌else◌, Option, none, some, List, [], ◌∷◌, ◌++◌,
  get_elem?, contains, Outcome, ok, err, panicked, or_panic, ◌>>=◌, for_each,
}
use shreds.Channel.{Message, receive}
use shreds.Processor.State.{EntriesWithMeta}
use shreds.Transaction.{CompiledInstruction, VersionedTransaction, first_signature}

-- `PUMP_MIGRATION_PUBKEY` and `RAYDIUM_LP_PUBKEY`, which are texts in base 58.
pub record Programs : Type 0 where
  pub pump_migration : ℕ
  pub raydium_lp : ℕ

-- The signatures that went into `sig_tx`.
pub record GraduatesProcessor : Type 0 where
  pub sent : List ℕ

-- `GraduatesProcessor::new`
abbrev pub new : GraduatesProcessor
new = record { sent = [] }

-- `any` over the instructions: it stops at the first match, and an index past the keys panics.
unfoldable pub uses_program : ℕ → List ℕ → List CompiledInstruction → Outcome ⊥ Bool
uses_program program account_keys [] = ok false
uses_program program account_keys (instruction ∷ instructions) =
    let rest = uses_program program account_keys instructions in
    or_panic (get_elem? account_keys instruction.program_id_index) >>= λ program_id.
    if program_id == program then ok true else rest

module _ (programs : Programs) where
  unfoldable pub filter_transaction : VersionedTransaction → Outcome ⊥ Bool
  filter_transaction tx =
      let account_keys = tx.message.static_account_keys in
      if tx.message.is_v0
      then (do
        uses_raydium ← uses_program programs.raydium_lp account_keys tx.message.instructions
        ok (contains account_keys programs.pump_migration && uses_raydium))
      else ok false

  -- `if let Some(sig) = tx.signatures.first()`; a send that fails is logged.
  unfoldable pub send_signature : GraduatesProcessor → Option ℕ → GraduatesProcessor
  send_signature self none = self
  send_signature self (some sig) = record self { sent = self.sent ++ (sig ∷ []) }

  unfoldable pub process_transaction :
      GraduatesProcessor → VersionedTransaction → Outcome ⊥ GraduatesProcessor
  process_transaction self tx = do
    matches ← filter_transaction tx
    ok (if matches then send_signature self (first_signature tx) else self)

  -- An entry is its list of transactions.
  unfoldable pub process_entries :
      GraduatesProcessor → List (List VersionedTransaction) → Outcome ⊥ GraduatesProcessor
  process_entries self entries = for_each (for_each process_transaction) self entries

  unfoldable pub receive_entries :
      GraduatesProcessor
      → List (Message (EntriesWithMeta (List VersionedTransaction)))
      → Outcome ⊥ GraduatesProcessor
  receive_entries self messages =
      for_each (receive λ self batch. process_entries self batch.entries) self messages
