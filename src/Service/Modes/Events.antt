-- ===== src/Service/Modes/Events.antt =====
-- What a service in pump mode posts and sends.
use mathlib.Core.List.{append-nil, append_assoc, map-append}
use shreds.Base.{
  ◌≡◌, refl, ap, ◌∙◌, sym, List, [], ◌∷◌, ◌++◌, map, select, flat_map, ok, >>=-eq-ok, ok-inj,
  for_each,
}
use shreds.Ledger.{Ledger}
use shreds.Transaction.{VersionedTransaction}
use shreds.Processor.State.{EntriesWithMeta, Host}
use shreds.Pump.{Borsh, ReadsFields, CreatePumpTokenEvent, PumpEntryProcessor, is_pump}
use shreds.Pump as Pump
use shreds.Pump.Event.{DescribeAll}
use shreds.Pump.Batch.{process_entries-eq_ok}
use shreds.Service.{
  Service, Reach, started, pump_mode, EntryProcessor, pump, Setup, run, process_entries,
}
use shreds.Service.Run.{Reach-Follows}

-- The events of some batches, in order, each with the slot of its batch.
abbrev pub DescribeBatches :
    Borsh → List (EntriesWithMeta (List VersionedTransaction)) → List CreatePumpTokenEvent → Type 0
DescribeBatches borsh [] events = events ≡ []
DescribeBatches borsh (batch ∷ batches) events =
    (first rest : List CreatePumpTokenEvent) × (events ≡ first ++ rest)
    × DescribeAll borsh batch.slot
        (select (is_pump borsh) (flat_map (λ entry. entry) batch.entries)) first
    × DescribeBatches borsh batches rest

module _ (setup : Setup) (Body : Type 0) (layout : ReadsFields setup.borsh) where
  -- The processor after some events.
  abbrev after_events : PumpEntryProcessor → List CreatePumpTokenEvent → PumpEntryProcessor
  after_events self events = record {
    posted = self.posted ++ events;
    sent = self.sent ++ map (λ e. e.sig) events;
  }

  after_events-append :
      (self : PumpEntryProcessor) (first rest : List CreatePumpTokenEvent)
      → after_events (after_events self first) rest ≡ after_events self (first ++ rest)
  after_events-append self first rest =
      rw
        (
          map-append (λ (e : CreatePumpTokenEvent). e.sig) first rest,
          append_assoc self.posted first rest,
          append_assoc self.sent (map (λ e. e.sig) first) (map (λ e. e.sig) rest),
        )
        refl

  pump_loop :
      (self : PumpEntryProcessor) (batches : List (EntriesWithMeta (List VersionedTransaction)))
      (p : EntryProcessor)
      → for_each (process_entries setup Body) (pump self) batches ≡ ok p
      → (events : List CreatePumpTokenEvent) × (p ≡ pump (after_events self events))
        × DescribeBatches setup.borsh batches events
  unfolding process_entries
  pump_loop self [] p h =
      ([], ok-inj {E = ⊥} (sym h) ∙ rw (append-nil self.posted, append-nil self.sent) refl, refl)
  pump_loop self (batch ∷ batches) p h =
      let (q, a, b) = >>=-eq-ok (process_entries setup Body (pump self) batch) _ h in
      let (next, c, d) =
        >>=-eq-ok (Pump.process_entries setup.borsh self batch.slot batch.entries) _ a in
      let (first, e, described) =
        process_entries-eq_ok setup.borsh batch.slot layout self next batch.entries c in
      let (rest, f, all) =
        pump_loop next batches p
          (ap (λ r. for_each (process_entries setup Body) r batches) (ok-inj {E = ⊥} d) ∙ b) in
      (
        first ++ rest,
        f ∙ ap (λ s. pump (after_events s rest)) e ∙ ap pump (after_events-append self first rest),
        (first, rest, refl, described, all),
      )

  module _ {Shred ShredId : Type 0} (l : Ledger Shred ShredId)
      (host : Host (List VersionedTransaction)) where
    -- In the mode `Pump`, for a borsh that reads the fields of a swap in their order, at every moment at which
    -- the entry processor runs: it has posted one event for each transaction that is taken for a pump
    -- transaction, in the batches that it took and in their order, and sent the signatures of these
    -- events; and these batches and those in the channel are what the shred processor sent. An event has
    -- the slot of its batch and the first signature of its transaction, three of its account keys, the
    -- name, symbol and URI of its last create instruction, or empty texts, and the counts of its swaps
    -- modulo 2^64.
    pub run-pump :
        (s : Service ShredId (List VersionedTransaction) EntryProcessor) (p : EntryProcessor)
        → Reach l host (process_entries setup Body) (started (run setup pump_mode)) s
        → s.entry_processor ≡ ok p
        → (processed : List (EntriesWithMeta (List VersionedTransaction))) × (events : List
            CreatePumpTokenEvent)
          × (s.shred_processor.sent ≡ processed ++ s.entry_queue)
          × (p ≡ pump (record { posted = events; sent = map (λ e. e.sig) events }))
          × DescribeBatches setup.borsh processed events
    unfolding run
    run-pump s p reach h =
        let v = Reach-Follows l host (process_entries setup Body) (run setup pump_mode) s reach in
        let (events, e, all) =
          pump_loop (record { posted = []; sent = [] }) v.processed p (v.processes ∙ h) in
        (
          v.processed,
          events,
          v.batches
              ∙ ap (λ r. v.processed ++ r)
                  (ap (λ r. s.entry_queue ++ r) (v.none_lost p h) ∙ append-nil s.entry_queue),
          e,
          all,
        )
