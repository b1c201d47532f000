-- ===== src/Arb/Entries.antt =====
-- src/entry_processor.rs: `ArbEntryProcessor::process_entries`.
pub mod Counts
use shreds.Base.{
  ℕ, ◌+◌, ◌*◌, ◌/◌, ◌%◌, ◌^◌, Bool, true, false, nat_eq, if◌then◌else◌, List, [], ◌∷◌, ◌++◌,
  get_elem?, contains, Outcome, ok, err, panicked, or_panic, ◌>>=◌, for_each,
}
use shreds.Base.Words.{u64_mod}
use shreds.Raydium.Swap.{AmmMath}
use shreds.Channel.{Message, receive}
use shreds.Processor.State.{EntriesWithMeta}
use shreds.Transaction.{VersionedMessage, VersionedTransaction}
use shreds.Arb.Pools.{PoolsState, reduce_raydium_amm_tx}

-- The keys that `constants` spells in base 58.
pub record Programs : Type 0 where
  pub whirlpool : ℕ
  pub raydium_cp : ℕ
  pub raydium_amm : ℕ

-- The state that the processor shares and the signatures it has sent. The channel has a receiver.
pub record ArbEntryProcessor : Type 0 where
  pub pools_state : PoolsState
  pub sent : List ℕ

-- `ArbEntryProcessor::new`
abbrev pub new : PoolsState → ArbEntryProcessor
new pools_state = record { pools_state = pools_state; sent = [] }

-- `reduce_orca_tx` does nothing yet.
abbrev pub reduce_orca_tx : PoolsState → VersionedTransaction → PoolsState
reduce_orca_tx self tx = self

-- The state with one of its counters advanced.
abbrev pub count_orca : PoolsState → PoolsState
count_orca pools = record pools { orca_count = (pools.orca_count + 1) % u64_mod }

abbrev pub count_cp : PoolsState → PoolsState
count_cp pools = record pools { raydium_cp_count = (pools.raydium_cp_count + 1) % u64_mod }

abbrev pub count_amm : PoolsState → PoolsState
count_amm pools = record pools { raydium_amm_count = (pools.raydium_amm_count + 1) % u64_mod }

module _ (math : AmmMath) (Body : Type 0) (programs : Programs) where
  unfoldable pub process_transaction :
      ArbEntryProcessor → VersionedTransaction → Outcome ⊥ ArbEntryProcessor
  process_transaction self tx =
      let keys = tx.message.static_account_keys in
      let pools = self.pools_state in
      if contains keys programs.whirlpool
      then ok (record self { pools_state = reduce_orca_tx (count_orca pools) tx })
      else if contains keys programs.raydium_cp
      then ok (record self { pools_state = count_cp pools })
      else if contains keys programs.raydium_amm
      then (do
        signature ← or_panic (get_elem? tx.signatures 0)
        reduced ← reduce_raydium_amm_tx math Body programs.raydium_amm (count_amm pools) tx
        ok (record { pools_state = reduced; sent = self.sent ++ (signature ∷ []) }))
      else ok self

  unfoldable pub process_transactions :
      ArbEntryProcessor → List VersionedTransaction → Outcome ⊥ ArbEntryProcessor
  process_transactions self [] = ok self
  process_transactions self (tx ∷ txs) = do
    next ← process_transaction self tx
    process_transactions next txs

  -- An entry is its list of transactions.
  unfoldable pub process_entries :
      ArbEntryProcessor → List (List VersionedTransaction) → Outcome ⊥ ArbEntryProcessor
  process_entries self [] = ok self
  process_entries self (entry ∷ entries) = do
    next ← process_transactions self entry
    process_entries next entries

  unfoldable pub receive_entries :
      ArbEntryProcessor
      → List (Message (EntriesWithMeta (List VersionedTransaction)))
      → Outcome ⊥ ArbEntryProcessor
  receive_entries self messages =
      for_each (receive λ self batch. process_entries self batch.entries) self messages
