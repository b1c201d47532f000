-- ===== src/Pump/Examples.antt =====
-- The pump processor on a sample token.
use shreds.Base.{◌≡◌, nat_eq, refl, List, [], ◌∷◌, map, ok, arith}
use shreds.Transaction.{VersionedTransaction}
use shreds.Pump.{
  CreatePumpTokenEvent, default_event, PumpEntryProcessor, read_instruction, process_entries,
}
use shreds.Pump.Account.{Accounts, read_instruction-Accounts}
use shreds.Pump.Event.{DescribeAll}
use shreds.Pump.Batch.{posts_events}
use shreds.Pump.Session.{borsh, layout, swap_ix, pump_tx}

-- A transaction without a signature, which is not taken for a pump transaction.
abbrev unsigned : VersionedTransaction
unsigned = record {
  signatures = [];
  message = record pump_tx.message { static_account_keys = 44 ∷ [] };
}

abbrev signed : List (List VersionedTransaction)
signed = (unsigned ∷ []) ∷ (pump_tx ∷ []) ∷ []

abbrev fresh : PumpEntryProcessor
fresh = record { posted = []; sent = [] }

read_instruction-Accounts_example :
    Accounts default_event
      (record { method_id = 1 ∷ 2 ∷ 3 ∷ 4 ∷ 5 ∷ 6 ∷ 7 ∷ 8 ∷ []; amount = 500; max_sol_cost = 1010 }
        ∷ [])
      (read_instruction borsh default_event swap_ix)
read_instruction-Accounts_example =
    read_instruction-Accounts borsh layout default_event swap_ix
      (1 ∷ 2 ∷ 3 ∷ 4 ∷ 5 ∷ 6 ∷ 7 ∷ 8 ∷ []) 500 1010 refl (omega arith) (omega arith) refl

posts_events_example :
    (events : List CreatePumpTokenEvent) × (process_entries borsh fresh 7 signed
      ≡ ok (record { posted = events; sent = map (λ e. e.sig) events }))
    × DescribeAll borsh 7 (pump_tx ∷ []) events
posts_events_example = posts_events borsh 7 layout fresh signed (omega arith, tt)
