-- ===== src/Channel.antt =====
-- The two channels that a processor of entries receives from: src/entry_processor.rs and
-- src/graduates_processor.rs.
use Prim.Native.String.{String}
use shreds.Base.{List, [], ◌∷◌, Outcome, ok}

-- What `tokio::select!` takes next: a batch from `entry_rx`, or a text from `error_rx`.
pub data Message (Batch : Type 0) : Type 0 where
  entries_message : Batch → Message Batch
  error_message : String → Message Batch

-- One round of `receive_entries`. A text is logged.
abbrev pub receive :
    {P Batch : Type 0} → (P → Batch → Outcome ⊥ P) → P → Message Batch → Outcome ⊥ P
receive process self (entries_message batch) = process self batch
receive process self (error_message text) = ok self

-- The batches among the messages, in their order.
abbrev pub batches : {Batch : Type 0} → List (Message Batch) → List Batch
batches [] = []
batches (entries_message batch ∷ messages) = batch ∷ batches messages
batches (error_message text ∷ messages) = batches messages
