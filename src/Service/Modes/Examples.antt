-- ===== src/Service/Modes/Examples.antt =====
-- The modes on the sample packets.
use shreds.Arb.Pools.Initialize.Session.{json, chain, chain-AmountsFit, file, pools_state, loads}
use shreds.Arb.Pools.Initialize.Loads.{IsPool}
use shreds.Service.{
  initialize_pools_state, Reach, started, arb_mode, pump_mode, graduates_mode, EntryProcessor, arb,
  graduates, pump, Setup, run, run_listener_with_algo, process_entries,
}
use shreds.Service.Modes.Trades.{run-arb}
use shreds.Base.{
  ℕ, for_each, All, Outcome, ◌>>=◌, subst, sym, ◌≡◌, refl, true, nat_eq, pair_eq, none, List, [],
  ◌∷◌, ◌++◌, map, ok,
}
use shreds.Base.Assoc.{lookup}
use shreds.Base.Bytes.{le_bytes, to_le_bytes}
use shreds.Sample.{ledger, swap_tx, amm_math, programs}
use shreds.Transaction.{VersionedTransaction}
use shreds.Pump.{Borsh, CreatePumpTokenEvent, default_event}
use shreds.Pump.Session.{borsh, layout, pump_tx}
use shreds.Service.Modes.Session.{Batch, host, done, after_batch, to_after_batch}
use shreds.Service.Modes.Events.{DescribeBatches, run-pump}
use shreds.Pump as Pump
use shreds.Graduates as Graduates
use shreds.Graduates.Filter.{graduates as graduate_signatures}
use shreds.Arb.Entries as Arb
use shreds.Channel.{Message, entries_message, error_message, batches}
use shreds.Service.Receive.{receive_entries, receive_entries-batches}
use shreds.Raydium.Instruction.{parse_amm_instruction, unpack_u64}
use shreds.Arb.Pools.{
  PoolsState, reduce_raydium_amm_tx, reduce_instructions, reduce_instruction, reduce_parsed,
  process_raydium_instruction, apply_instruction, get_account_key_safely, update_pool_state_swap,
  vaults_match,
}
use shreds.Arb.Entries.Counts.{Processes}
use shreds.Service.Modes.{transactions, run-graduates, run_listener_with_algo-IsPump, IsPump}

abbrev migration : VersionedTransaction
migration = record swap_tx {
  message = record swap_tx.message { is_v0 = true; static_account_keys = 92 ∷ 10 ∷ 11 ∷ 39 ∷ [] };
}

abbrev migrations : List VersionedTransaction
migrations = migration ∷ []

abbrev setup : Setup
setup = record {
  math = amm_math;
  programs = programs;
  borsh = record {
    decode_create = λ bytes. none;
    decode_swap = λ bytes. none;
    to_string = λ sig. sig ∷ [];
    mint_authority = 44;
  };
  graduate_programs = record { pump_migration = 39; raydium_lp = 92 };
  json = json;
  chain = chain (30 ∷ 31 ∷ []);
  raydium_json = file;
}

abbrev sent_two : EntryProcessor
sent_two = graduates (record { sent = 77 ∷ 77 ∷ [] })

graduates_run :
    Reach ledger
      (host migrations)
      (process_entries setup (Unit {0}))
      (started (run setup graduates_mode))
      (after_batch migrations sent_two)
unfolding run process_entries Graduates.process_entries Graduates.process_transaction
    Graduates.filter_transaction Graduates.uses_program Graduates.send_signature
graduates_run = to_after_batch migrations setup (graduates (record { sent = [] })) sent_two refl

run-graduates_example :
    (processed : List Batch) × ((done migrations).sent ≡ processed ++ [])
    × (sent_two
        ≡ graduates (record {
          sent = graduate_signatures setup.graduate_programs (transactions processed);
        }))
run-graduates_example =
    run-graduates setup (Unit {0}) ledger (host migrations) (after_batch migrations sent_two)
      sent_two graduates_run refl

abbrev no_events : EntryProcessor
no_events = pump (record { posted = []; sent = [] })

listener_run :
    Reach ledger
      (host migrations)
      (process_entries setup (Unit {0}))
      (started (run_listener_with_algo setup graduates_mode))
      (after_batch migrations no_events)
unfolding run_listener_with_algo process_entries Pump.process_entries Pump.push_event
    Pump.create_event Pump.post_events
listener_run = to_after_batch migrations setup no_events no_events refl

run_listener_with_algo-IsPump_example : IsPump setup (Unit {0}) no_events
run_listener_with_algo-IsPump_example =
    run_listener_with_algo-IsPump setup (Unit {0}) ledger (host migrations)
      (after_batch migrations no_events) no_events listener_run refl

abbrev traded : Arb.ArbEntryProcessor
traded = record { pools_state = record pools_state { raydium_amm_count = 2 }; sent = 77 ∷ 77 ∷ [] }

-- The loaded pools, and a processor that starts with them.
abbrev start_with : Outcome ⊥ PoolsState → Outcome ⊥ EntryProcessor
start_with loaded = loaded >>= λ pools. ok (arb (record { pools_state = pools; sent = [] }))

arb_run :
    Reach ledger
      (host migrations)
      (process_entries setup (Unit {0}))
      (started (run setup arb_mode))
      (after_batch migrations (arb traded))
unfolding run process_entries Arb.process_entries Arb.process_transactions Arb.process_transaction
    reduce_raydium_amm_tx reduce_instructions reduce_instruction reduce_parsed
    process_raydium_instruction apply_instruction get_account_key_safely parse_amm_instruction
    unpack_u64 le_bytes update_pool_state_swap lookup vaults_match
arb_run =
    subst
      (λ loaded.
        Reach ledger (host migrations) (process_entries setup (Unit {0}))
          (started (start_with loaded)) (after_batch migrations (arb traded)))
      (sym loads)
      (to_after_batch migrations setup (arb (record { pools_state = pools_state; sent = [] }))
        (arb traded) refl)

run-arb_example :
    (processed : List Batch) × (loaded : PoolsState) × (self : Arb.ArbEntryProcessor) × ((done
        migrations).sent
      ≡ processed ++ [])
    × (initialize_pools_state setup ≡ ok loaded)
    × All (IsPool setup.json setup.chain (chain-AmountsFit (30 ∷ 31 ∷ []))) loaded.raydium_pools
    × (arb traded ≡ arb self)
    × Processes programs (transactions processed) (record { pools_state = loaded; sent = [] }) self
run-arb_example =
    run-arb setup (Unit {0}) ledger (host migrations) (chain-AmountsFit (30 ∷ 31 ∷ []))
      (after_batch migrations (arb traded)) (arb traded) arb_run refl

-- The same with the sample token, and with borsh's reader of it.
abbrev pump_setup : Setup
pump_setup = record setup { borsh = borsh }

abbrev created : CreatePumpTokenEvent
created = record default_event {
  sig = 77 ∷ [];
  slot = 7;
  mint = 21;
  bounding_curve = 23;
  associated_bounding_curve = 24;
  name = 78 ∷ [];
  symbol = 83 ∷ [];
  uri = 85 ∷ [];
  dev_bought_amount = 500;
  dev_max_sol_cost = 1010;
  num_dev_buy_txs = 1;
  virtual_sol_reserves = 30_000_001_000;
  virtual_token_reserves = 1_072_999_999_999_500;
}

abbrev posted_two : EntryProcessor
posted_two = pump (record { posted = created ∷ created ∷ []; sent = (77 ∷ []) ∷ (77 ∷ []) ∷ [] })

pump_run :
    Reach ledger
      (host (pump_tx ∷ []))
      (process_entries pump_setup (Unit {0}))
      (started (run pump_setup pump_mode))
      (after_batch (pump_tx ∷ []) posted_two)
unfolding run process_entries Pump.process_entries Pump.push_event Pump.create_event
    Pump.read_instructions Pump.read_instruction Pump.add_swap Pump.deduct_fee Pump.post_events
    Pump.post_event le_bytes to_le_bytes
pump_run = to_after_batch (pump_tx ∷ []) pump_setup no_events posted_two refl

run-pump_example :
    (processed : List Batch) × (events : List CreatePumpTokenEvent) × ((done (pump_tx ∷ [])).sent
      ≡ processed ++ [])
    × (posted_two ≡ pump (record { posted = events; sent = map (λ e. e.sig) events }))
    × DescribeBatches borsh processed events
run-pump_example =
    run-pump pump_setup (Unit {0}) layout ledger (host (pump_tx ∷ []))
      (after_batch (pump_tx ∷ []) posted_two) posted_two pump_run refl

-- A text between two batches.
abbrev messages : List (Message Batch)
messages =
    entries_message (record { entries = migrations ∷ []; slot = 7 })
    ∷ error_message "late"
    ∷ entries_message (record { entries = migrations ∷ []; slot = 8 })
    ∷ []

receive_entries-batches_example :
    receive_entries setup ℕ (graduates Graduates.new) messages
    ≡ for_each (process_entries setup ℕ) (graduates Graduates.new) (batches messages)
receive_entries-batches_example = receive_entries-batches setup ℕ (graduates Graduates.new) messages
