-- ===== src/Service/Receive.antt =====
-- The loop `receive_entries` of each processor, against its calls of `process_entries`.
use shreds.Base.{
  ◌≡◌, refl, sym, ◌∙◌, List, [], ◌∷◌, Outcome, ok, ◌>>=◌, for_each, >>=-congr, >>=_assoc,
}
use shreds.Channel.{Message, entries_message, error_message, receive, batches}
use shreds.Transaction.{VersionedTransaction}
use shreds.Processor.State.{EntriesWithMeta}
use shreds.Arb.Entries as Arb
use shreds.Pump as Pump
use shreds.Graduates as Graduates
use shreds.Service.{Setup, EntryProcessor, arb, pump, graduates, process_entries}

-- The loop that runs for a processor.
unfoldable pub receive_entries :
    Setup
    → Type 0
    → EntryProcessor
    → List (Message (EntriesWithMeta (List VersionedTransaction)))
    → Outcome ⊥ EntryProcessor
receive_entries setup Body (arb self) messages = do
  next ← Arb.receive_entries setup.math Body setup.programs self messages
  ok (arb next)
receive_entries setup Body (pump self) messages = do
  next ← Pump.receive_entries setup.borsh self messages
  ok (pump next)
receive_entries setup Body (graduates self) messages = do
  next ← Graduates.receive_entries setup.graduate_programs self messages
  ok (graduates next)

-- A loop in which each round keeps the mode is the loop over the batches.
module _ {Q P Batch : Type 0} (wrap : Q → P) (step : Q → Batch → Outcome ⊥ Q)
    (process : P → Batch → Outcome ⊥ P)
    (wraps : (self : Q) (batch : Batch)
      → process (wrap self) batch ≡ (step self batch >>= λ next. ok (wrap next))) where
  receive-batches :
      (self : Q) (messages : List (Message Batch))
      → (for_each (receive step) self messages >>= λ next. ok (wrap next))
        ≡ for_each process (wrap self) (batches messages)
  receive-batches self [] = refl
  receive-batches self (error_message text ∷ messages) = receive-batches self messages
  receive-batches self (entries_message batch ∷ messages) = rw (wraps self batch) (
      >>=_assoc (step self batch) (λ next. for_each (receive step) next messages)
        (λ next. ok (wrap next))
      ∙ >>=-congr (step self batch)
          (λ next. for_each (receive step) next messages >>= λ last. ok (wrap last))
          (λ next. for_each process (wrap next) (batches messages))
          (λ next. receive-batches next messages)
      ∙ sym (
          >>=_assoc (step self batch) (λ next. ok (wrap next))
            (λ next. for_each process next (batches messages))))

pub receive_entries-batches :
    (setup : Setup) (Body : Type 0) (self : EntryProcessor)
    (messages : List (Message (EntriesWithMeta (List VersionedTransaction))))
    → receive_entries setup Body self messages
      ≡ for_each (process_entries setup Body) self (batches messages)
unfolding receive_entries process_entries Arb.receive_entries Pump.receive_entries
    Graduates.receive_entries
receive_entries-batches setup Body (arb self) messages =
    receive-batches arb
      (λ self batch. Arb.process_entries setup.math Body setup.programs self batch.entries)
      (process_entries setup Body) (λ self batch. refl) self messages
receive_entries-batches setup Body (pump self) messages =
    receive-batches pump
      (λ self batch. Pump.process_entries setup.borsh self batch.slot batch.entries)
      (process_entries setup Body) (λ self batch. refl) self messages
receive_entries-batches setup Body (graduates self) messages =
    receive-batches graduates
      (λ self batch. Graduates.process_entries setup.graduate_programs self batch.entries)
      (process_entries setup Body) (λ self batch. refl) self messages
