-- ===== src/Service.antt =====
-- src/service.rs and src/listener.rs: the tasks of a running service, which share the shred processor and
-- the channel of batches, and the processor that each mode starts.
pub mod Trace
pub mod Run
pub mod Stop
pub mod Modes
pub mod Receive
mod Examples
use shreds.Base.{
  ℕ, ◌-◌, ◌≤◌, ◌≡◌, Bool, true, false, List, [], ◌∷◌, ◌++◌, length, take, drop, Outcome, ok, err,
  panicked, ◌>>=◌,
}
use shreds.Ledger.{Ledger}
use shreds.Transaction.{VersionedTransaction}
use shreds.Processor.State.{EntriesWithMeta, ShredProcessor, Host, new}
use shreds.Processor.Collect.{collect}
use shreds.Raydium.Swap.{AmmMath}
use shreds.Raydium.Json.{Json}
use shreds.Arb.Pools.{PoolsState}
use shreds.Arb.Pools.Initialize.{Chain, default_state, initialize_raydium_amm_pools}
use shreds.Arb.Entries as Arb
use shreds.Pump as Pump
use shreds.Graduates as Graduates

abbrev pub packet_size : ℕ
packet_size = 1280 - 40 - 8

-- The capacity of the channel of batches.
abbrev pub channel_size : ℕ
channel_size = 2000

-- A task that panics ends, and the others run on: the loop over the socket is going while
-- `is_collecting`, and the state of the entry processor is the outcome of its calls so far. What a panic
-- leaves of the shred processor is read by `metrics` alone; here it is the state before the packet. A call
-- of the entry processor is taken to end: a post to a server that never answers, for which the client sets
-- no time limit, is left out.
pub record Service (ShredId Entry P : Type 0) : Type 0 where
  pub shred_processor : ShredProcessor ShredId Entry
  pub is_collecting : Bool
  pub entry_queue : List (EntriesWithMeta Entry)
  pub entry_processor : Outcome ⊥ P

-- `Vec::from(&buf[..received])`: what does not fit in the buffer is lost.
abbrev pub packet_of : List ℕ → List ℕ
packet_of datagram = take packet_size datagram

-- What a call of `collect` has handed to the channel.
abbrev pub newly_sent :
    {ShredId Entry : Type 0}
    → ShredProcessor ShredId Entry
    → ShredProcessor ShredId Entry
    → List (EntriesWithMeta Entry)
newly_sent self next = drop (length self.sent) next.sent

-- The state at the start: the entry processor may fail to start.
abbrev pub started : {ShredId Entry P : Type 0} → Outcome ⊥ P → Service ShredId Entry P
started start = record {
  shred_processor = new;
  is_collecting = true;
  entry_queue = [];
  entry_processor = start;
}

module _ {Shred ShredId Entry P : Type 0} (l : Ledger Shred ShredId) (host : Host Entry)
    (process : P → EntriesWithMeta Entry → Outcome ⊥ P) where
  -- One round of one task. A send waits until the channel has room; when the entry processor has
  -- stopped the channel is closed, and the send fails at once and is logged.
  pub data Step : Service ShredId Entry P → Service ShredId Entry P → Type 0 where
    receive_packet :
        {self next : ShredProcessor ShredId Entry} {queue : List (EntriesWithMeta Entry)} {p : P}
        (datagram : List ℕ)
        → collect l host self (packet_of datagram) ≡ ok next
        → length (queue ++ newly_sent self next) ≤ channel_size
        → Step
            (record {
              shred_processor = self;
              is_collecting = true;
              entry_queue = queue;
              entry_processor = ok p;
            })
            (record {
              shred_processor = next;
              is_collecting = true;
              entry_queue = queue ++ newly_sent self next;
              entry_processor = ok p;
            })
    send_fails :
        {self next : ShredProcessor ShredId Entry} (datagram : List ℕ)
        → collect l host self (packet_of datagram) ≡ ok next
        → Step
            (record {
              shred_processor = self;
              is_collecting = true;
              entry_queue = [];
              entry_processor = panicked;
            })
            (record {
              shred_processor = next;
              is_collecting = true;
              entry_queue = [];
              entry_processor = panicked;
            })
    packet_panics :
        {s : Service ShredId Entry P} (datagram : List ℕ)
        → s.is_collecting ≡ true
        → collect l host s.shred_processor (packet_of datagram) ≡ panicked
        → Step s (record s { is_collecting = false })
    -- `Err(e)` from the socket, and the metrics task: they log.
    socket_error : {s : Service ShredId Entry P} → s.is_collecting ≡ true → Step s s
    report_metrics : {s : Service ShredId Entry P} → Step s s
    receive_entries :
        {self : ShredProcessor ShredId Entry} {collecting : Bool} {batch : EntriesWithMeta Entry}
        {queue : List (EntriesWithMeta Entry)} {p next : P}
        → process p batch ≡ ok next
        → Step
            (record {
              shred_processor = self;
              is_collecting = collecting;
              entry_queue = batch ∷ queue;
              entry_processor = ok p;
            })
            (record {
              shred_processor = self;
              is_collecting = collecting;
              entry_queue = queue;
              entry_processor = ok next;
            })
    -- The receiver is dropped with the batches that are in the channel.
    entries_panic :
        {self : ShredProcessor ShredId Entry} {collecting : Bool} {batch : EntriesWithMeta Entry}
        {queue : List (EntriesWithMeta Entry)} {p : P}
        → process p batch ≡ panicked
        → Step
            (record {
              shred_processor = self;
              is_collecting = collecting;
              entry_queue = batch ∷ queue;
              entry_processor = ok p;
            })
            (record {
              shred_processor = self;
              is_collecting = collecting;
              entry_queue = [];
              entry_processor = panicked;
            })

  pub data Reach (s : Service ShredId Entry P) : Service ShredId Entry P → Type 0 where
    start : Reach s s
    later : {t u : Service ShredId Entry P} → Reach s t → Step t u → Reach s u

pub data Mode : Type 0 where
  arb_mode : Mode
  pump_mode : Mode
  graduates_mode : Mode

pub data EntryProcessor : Type 0 where
  arb : Arb.ArbEntryProcessor → EntryProcessor
  pump : Pump.PumpEntryProcessor → EntryProcessor
  graduates : Graduates.GraduatesProcessor → EntryProcessor

-- What the three processors take from elsewhere: the interfaces to other code, keys of programs, and the
-- value that `RAYDIUM_JSON` was read into.
pub record Setup : Type 1 where
  pub math : AmmMath
  pub programs : Arb.Programs
  pub borsh : Pump.Borsh
  pub graduate_programs : Graduates.Programs
  pub json : Json
  pub chain : Chain
  pub raydium_json : json.Value

module _ (setup : Setup) where
  -- `PoolsState::initialize`, on the default state.
  abbrev pub initialize_pools_state : Outcome ⊥ PoolsState
  initialize_pools_state =
      initialize_raydium_amm_pools setup.json setup.chain setup.raydium_json default_state

  abbrev pub start_arb : Outcome ⊥ EntryProcessor
  start_arb = do pools_state ← initialize_pools_state; ok (arb (Arb.new pools_state))

  abbrev pub start_pump : Outcome ⊥ EntryProcessor
  start_pump = ok (pump Pump.new)

  -- The `match mode` of `service::run`.
  unfoldable pub run : Mode → Outcome ⊥ EntryProcessor
  run arb_mode = start_arb
  run pump_mode = start_pump
  run graduates_mode = ok (graduates Graduates.new)

  -- The `match mode` of `run_listener_with_algo`.
  unfoldable pub run_listener_with_algo : Mode → Outcome ⊥ EntryProcessor
  run_listener_with_algo arb_mode = start_arb
  run_listener_with_algo pump_mode = start_pump
  run_listener_with_algo graduates_mode = start_pump

  -- The call of `receive_entries` in each processor.
  unfoldable pub process_entries :
      (Body : Type 0)
      → EntryProcessor
      → EntriesWithMeta (List VersionedTransaction)
      → Outcome ⊥ EntryProcessor
  process_entries Body (arb self) batch = do
    next ← Arb.process_entries setup.math Body setup.programs self batch.entries
    ok (arb next)
  process_entries Body (pump self) batch = do
    next ← Pump.process_entries setup.borsh self batch.slot batch.entries
    ok (pump next)
  process_entries Body (graduates self) batch = do
    next ← Graduates.process_entries setup.graduate_programs self batch.entries
    ok (graduates next)
