-- ===== src/Graduates/Examples.antt =====
-- The graduates processor at a sample migration.
use shreds.Base.{◌≡◌, true, [], ◌∷◌, ok, arith}
use shreds.Transaction.{VersionedTransaction}
use shreds.Graduates.{Programs, GraduatesProcessor, process_entries}
use shreds.Graduates.Filter.{sends_graduates}
use shreds.Sample.{swap_tx}

abbrev migration : VersionedTransaction
migration = record swap_tx {
  message = record swap_tx.message { is_v0 = true; static_account_keys = 92 ∷ 10 ∷ 11 ∷ 39 ∷ [] };
}

abbrev programs : Programs
programs = record { pump_migration = 39; raydium_lp = 92 }

abbrev fresh : GraduatesProcessor
fresh = record { sent = [] }

abbrev sent_one : GraduatesProcessor
sent_one = record { sent = 77 ∷ [] }

sends_graduates_example :
    process_entries programs fresh ((swap_tx ∷ []) ∷ (migration ∷ []) ∷ []) ≡ ok sent_one
sends_graduates_example =
    sends_graduates programs fresh ((swap_tx ∷ []) ∷ (migration ∷ []) ∷ [])
      ((omega arith, tt), ((omega arith, tt), tt))
