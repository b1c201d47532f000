-- ===== src/Pump.antt =====
-- src/entry_processor.rs and src/pump.rs: `PumpEntryProcessor`, which reports the tokens that are
-- created, with what their transaction buys of them.
pub mod Account
pub mod Texts
pub mod Event
pub mod Batch
pub mod Session
mod Examples
use shreds.Base.{
  ◌<◌, ◌≡◌, ℕ, ◌+◌, ◌-◌, ◌*◌, ◌/◌, ◌%◌, Bool, true, false, ◌&&◌, ◌==◌, nat_eq, if◌then◌else◌,
  Option, none, some, List, [], ◌∷◌, ◌++◌, map, length, get_elem?, contains, Outcome, ok, err,
  panicked, or_panic, ◌>>=◌, for_each,
}
use shreds.Base.Bytes.{to_le_bytes}
use shreds.Base.Words.{u64_mod}
use shreds.Channel.{Message, receive}
use shreds.Processor.State.{EntriesWithMeta}
use shreds.Transaction.{CompiledInstruction, VersionedTransaction, first_signature}

-- A text is the list of its bytes.
pub record PumpCreateIx : Type 0 where
  pub method_id : List ℕ
  pub name : List ℕ
  pub symbol : List ℕ
  pub uri : List ℕ

pub record PumpSwapIx : Type 0 where
  pub method_id : List ℕ
  pub amount : ℕ
  pub max_sol_cost : ℕ

-- The code that is taken from elsewhere: borsh's `try_from_slice` for the two structs, and the text of
-- a signature; and the key that `PUMP_FUN_MINT_AUTHORITY` spells.
pub record Borsh : Type 0 where
  pub decode_create : List ℕ → Option PumpCreateIx
  pub decode_swap : List ℕ → Option PumpSwapIx
  pub to_string : ℕ → List ℕ
  pub mint_authority : ℕ

-- Borsh reads the fields in their order, the 8 bytes and the two little-endian words, and a `u64` is a
-- word.
pub record ReadsFields (borsh : Borsh) : Type 0 where
  pub reads :
      (method_id : List ℕ) (amount max_sol_cost : ℕ)
      → length method_id ≡ 8
      → amount < u64_mod
      → max_sol_cost < u64_mod
      → borsh.decode_swap (method_id ++ (to_le_bytes 8 amount ++ to_le_bytes 8 max_sol_cost))
        ≡ some (record { method_id = method_id; amount = amount; max_sol_cost = max_sol_cost })
  pub words :
      (bytes : List ℕ) (swap : PumpSwapIx)
      → borsh.decode_swap bytes ≡ some swap
      → (swap.amount < u64_mod) × (swap.max_sol_cost < u64_mod)

abbrev pub default_sol_initial_reserves : ℕ
default_sol_initial_reserves = 30_000_000_000

abbrev pub default_token_initial_reserves : ℕ
default_token_initial_reserves = 1_073_000_000_000_000

pub record CreatePumpTokenEvent : Type 0 where
  pub sig : List ℕ
  pub slot : ℕ
  pub mint : ℕ
  pub bounding_curve : ℕ
  pub associated_bounding_curve : ℕ
  pub name : List ℕ
  pub symbol : List ℕ
  pub uri : List ℕ
  pub dev_bought_amount : ℕ
  pub dev_max_sol_cost : ℕ
  pub num_dev_buy_txs : ℕ
  pub virtual_sol_reserves : ℕ
  pub virtual_token_reserves : ℕ

-- `CreatePumpTokenEvent::default`; the default key is 0.
abbrev pub default_event : CreatePumpTokenEvent
default_event = record {
  sig = [];
  slot = 0;
  mint = 0;
  bounding_curve = 0;
  associated_bounding_curve = 0;
  name = [];
  symbol = [];
  uri = [];
  dev_bought_amount = 0;
  dev_max_sol_cost = 0;
  num_dev_buy_txs = 0;
  virtual_sol_reserves = default_sol_initial_reserves;
  virtual_token_reserves = default_token_initial_reserves;
}

-- The 1% fee, in the arithmetic of a release build.
unfoldable pub deduct_fee : ℕ → ℕ
deduct_fee sol_amount = sol_amount * 100 % u64_mod / 101

unfoldable pub add_swap : CreatePumpTokenEvent → PumpSwapIx → CreatePumpTokenEvent
add_swap event swap = record event {
  dev_bought_amount = (event.dev_bought_amount + swap.amount) % u64_mod;
  dev_max_sol_cost = (event.dev_max_sol_cost + swap.max_sol_cost) % u64_mod;
  num_dev_buy_txs = (event.num_dev_buy_txs + 1) % u64_mod;
  virtual_sol_reserves = (event.virtual_sol_reserves + deduct_fee swap.max_sol_cost) % u64_mod;
  virtual_token_reserves = (event.virtual_token_reserves + u64_mod - swap.amount) % u64_mod;
}

-- The events that were posted to the webhook, whatever came back, and the signatures that were sent.
pub record PumpEntryProcessor : Type 0 where
  pub posted : List CreatePumpTokenEvent
  pub sent : List (List ℕ)

-- `PumpEntryProcessor::new`
abbrev pub new : PumpEntryProcessor
new = record { posted = []; sent = [] }

module _ (borsh : Borsh) where
  -- One round over the instructions of a transaction.
  unfoldable pub read_instruction :
      CreatePumpTokenEvent → CompiledInstruction → CreatePumpTokenEvent
  read_instruction event ix = elim (borsh.decode_swap ix.instruction_data) [
    | some swap ↦ add_swap event swap
    | none ↦ elim (borsh.decode_create ix.instruction_data) [
      | some token_metadata ↦ record event {
        name = token_metadata.name;
        symbol = token_metadata.symbol;
        uri = token_metadata.uri;
      }
      | none ↦ event
    ]
  ]

  unfoldable pub read_instructions :
      CreatePumpTokenEvent → List CompiledInstruction → CreatePumpTokenEvent
  read_instructions event [] = event
  read_instructions event (ix ∷ ixs) = read_instructions (read_instruction event ix) ixs

  abbrev pub is_pump : VersionedTransaction → Bool
  is_pump tx =
      length tx.message.static_account_keys == 18
      && contains tx.message.static_account_keys borsh.mint_authority

  -- The closure of `filter_map`.
  unfoldable pub create_event : ℕ → VersionedTransaction → Outcome ⊥ (Option CreatePumpTokenEvent)
  create_event slot tx =
      let account_keys = tx.message.static_account_keys in
      if is_pump tx
      then (do
        mint ← or_panic (get_elem? account_keys 1)
        bounding_curve ← or_panic (get_elem? account_keys 3)
        associated_bounding_curve ← or_panic (get_elem? account_keys 4)
        let event =
            read_instructions
              (record default_event {
                mint = mint;
                bounding_curve = bounding_curve;
                associated_bounding_curve = associated_bounding_curve;
              })
              tx.message.instructions
        signature ← or_panic (first_signature tx)
        ok (some (record event { sig = borsh.to_string signature; slot = slot })))
      else ok none

  -- The parallel iterators keep the order, and a panic in one task goes on.
  unfoldable pub push_event :
      ℕ → List CreatePumpTokenEvent → VersionedTransaction → Outcome ⊥ (List CreatePumpTokenEvent)
  push_event slot events tx = do
    event ← create_event slot tx
    ok (events ++ (elim event [ none ↦ [] | some event ↦ event ∷ [] ]))

  -- The loop over the events: a post, whose failure is logged, and a signature.
  unfoldable pub post_event : PumpEntryProcessor → CreatePumpTokenEvent → PumpEntryProcessor
  post_event self event = record {
    posted = self.posted ++ (event ∷ []);
    sent = self.sent ++ (event.sig ∷ []);
  }

  unfoldable pub post_events : PumpEntryProcessor → List CreatePumpTokenEvent → PumpEntryProcessor
  post_events self [] = self
  post_events self (event ∷ events) = post_events (post_event self event) events

  unfoldable pub process_entries :
      PumpEntryProcessor → ℕ → List (List VersionedTransaction) → Outcome ⊥ PumpEntryProcessor
  process_entries self slot entries = do
    events ← for_each (for_each (push_event slot)) [] entries
    ok (post_events self events)

  unfoldable pub receive_entries :
      PumpEntryProcessor
      → List (Message (EntriesWithMeta (List VersionedTransaction)))
      → Outcome ⊥ PumpEntryProcessor
  receive_entries self messages =
      for_each (receive λ self batch. process_entries self batch.slot batch.entries) self messages
