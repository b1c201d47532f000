-- ===== src/Service/Modes.antt =====
-- What a service in graduates mode sends, and what the listener starts in its place.
pub mod Events
pub mod Trades
pub mod Session
mod Examples
use mathlib.Core.List.{append-nil, append_assoc}
use shreds.Base.{
  All, ℕ, ◌≡◌, refl, ap, ◌∙◌, sym, subst, List, [], ◌∷◌, ◌++◌, map, select, select-append,
  filter_map, filter_map-append, flat_map, Outcome, ok, err, panicked, ◌>>=◌, >>=-eq-ok, ok-inj,
  for_each, for_each-invariant, arith,
}
use shreds.Ledger.{Ledger}
use shreds.Transaction.{VersionedTransaction, first_signature}
use shreds.Processor.State.{EntriesWithMeta, ShredProcessor, Host}
use shreds.Service.{
  Service, Reach, started, Mode, arb_mode, graduates_mode, EntryProcessor, arb, pump, graduates,
  Setup, start_arb, initialize_pools_state, run, run_listener_with_algo, process_entries,
}
use shreds.Service.Run.{Follows, Reach-Follows, processed_all}
use shreds.Raydium.Swap.{RaydiumAmmPool}
use shreds.Arb.Pools.{PoolsState}
use shreds.Arb.Pools.Update.{Fits}
use shreds.Arb.Pools.Initialize.{default_state}
use shreds.Arb.Pools.Initialize.Loads.{AmountsFit, IsPool, initialize-IsPool, initialize-SameCounts}
use shreds.Arb.Entries.{ArbEntryProcessor}
use shreds.Arb.Entries as Arb
use shreds.Arb.Entries.Counts.{CountsFit, Processes, Processes-trans, process_entries_lem}
use shreds.Pump.{PumpEntryProcessor, CreatePumpTokenEvent, post_event, post_events}
use shreds.Pump as Pump
use shreds.Pump.Batch.{IsPosted, process_entries-IsPosted}
use shreds.Graduates.{GraduatesProcessor}
use shreds.Graduates as Graduates
use shreds.Graduates.Filter.{
  graduates as graduate_signatures, is_graduate, after, process_entries-eq_ok,
}

-- The transactions of some batches, in order.
abbrev pub transactions :
    List (EntriesWithMeta (List VersionedTransaction)) → List VersionedTransaction
transactions = flat_map (λ batch. flat_map (λ entry. entry) batch.entries)

module _ (programs : Graduates.Programs) where
  graduates-append :
      (xs ys : List VersionedTransaction)
      → graduate_signatures programs (xs ++ ys)
        ≡ graduate_signatures programs xs ++ graduate_signatures programs ys
  graduates-append xs ys =
      ap (filter_map first_signature) (select-append (is_graduate programs) xs ys)
      ∙ filter_map-append first_signature (select (is_graduate programs) xs)
          (select (is_graduate programs) ys)

  after-append :
      (self : GraduatesProcessor) (xs ys : List VersionedTransaction)
      → after programs (after programs self xs) ys ≡ after programs self (xs ++ ys)
  after-append self xs ys =
      ap {A = List ℕ} {B = GraduatesProcessor} (λ sigs. record { sent = sigs })
        (append_assoc self.sent (graduate_signatures programs xs) (graduate_signatures programs ys)
          ∙ ap (λ sigs. self.sent ++ sigs) (sym (graduates-append xs ys)))

module _ (setup : Setup) (Body : Type 0) where
  graduates_loop :
      (self : GraduatesProcessor) (batches : List (EntriesWithMeta (List VersionedTransaction)))
      (p : EntryProcessor)
      → for_each (process_entries setup Body) (graduates self) batches ≡ ok p
      → p ≡ graduates (after setup.graduate_programs self (transactions batches))
  unfolding process_entries
  graduates_loop self [] p h =
      ok-inj {E = ⊥} (sym h)
      ∙ ap {A = List ℕ} (λ sigs. graduates (record { sent = sigs })) (sym (append-nil self.sent))
  graduates_loop self (batch ∷ batches) p h =
      let (q, a, b) = >>=-eq-ok (process_entries setup Body (graduates self) batch) _ h in
      let (next, c, d) =
        >>=-eq-ok (Graduates.process_entries setup.graduate_programs self batch.entries) _ a in
      let e = process_entries-eq_ok setup.graduate_programs self next batch.entries c in
      graduates_loop next batches p
        (ap (λ r. for_each (process_entries setup Body) r batches) (ok-inj {E = ⊥} d) ∙ b)
      ∙ ap (λ g. graduates (after setup.graduate_programs g (transactions batches))) e
      ∙ ap graduates (
          after-append setup.graduate_programs self (flat_map (λ entry. entry) batch.entries)
            (transactions batches))

  -- Each signature that was sent is that of an event that was posted.
  abbrev pub IsPump : EntryProcessor → Type 0
  IsPump p = (self : PumpEntryProcessor) × (p ≡ pump self) × IsPosted self

  process_entries-IsPump :
      (p : EntryProcessor) (batch : EntriesWithMeta (List VersionedTransaction))
      (next : EntryProcessor)
      → IsPump p
      → process_entries setup Body p batch ≡ ok next
      → IsPump next
  unfolding process_entries
  process_entries-IsPump p batch next (self, e, posted) h =
      let (done, a, b) =
        >>=-eq-ok (Pump.process_entries setup.borsh self batch.slot batch.entries) _
          (ap (λ q. process_entries setup Body q batch) (sym e) ∙ h) in
      (
        done,
        sym (ok-inj {E = ⊥} b),
        process_entries-IsPosted setup.borsh batch.slot self done batch.entries posted a,
      )

  module _ {Shred ShredId : Type 0} (l : Ledger Shred ShredId)
      (host : Host (List VersionedTransaction)) where
    -- In the mode `Graduates` of the service, at every moment at which the entry processor runs, it has sent
    -- the first signatures of just those transactions, in order, that mention the migration program and
    -- call Raydium's in a message of version 0, among the transactions of the batches that it took; and
    -- these batches and those in the channel are what the shred processor sent.
    pub run-graduates :
        (s : Service ShredId (List VersionedTransaction) EntryProcessor) (p : EntryProcessor)
        → Reach l host (process_entries setup Body) (started (run setup graduates_mode)) s
        → s.entry_processor ≡ ok p
        → (processed : List (EntriesWithMeta (List VersionedTransaction))) × (s.shred_processor.sent
            ≡ processed ++ s.entry_queue)
          × (p
              ≡ graduates (record {
                sent = graduate_signatures setup.graduate_programs (transactions processed);
              }))
    unfolding run
    run-graduates s p reach h =
        let v =
          Reach-Follows l host (process_entries setup Body) (run setup graduates_mode) s reach in
        (
          v.processed,
          v.batches
              ∙ ap (λ r. v.processed ++ r)
                  (ap (λ r. s.entry_queue ++ r) (v.none_lost p h) ∙ append-nil s.entry_queue),
          graduates_loop (record { sent = [] }) v.processed p (v.processes ∙ h),
        )

    -- In the mode `Graduates` of the listener, at every moment at which the entry processor runs, it is a pump
    -- processor, and each signature that it has sent is that of an event that it has posted.
    pub run_listener_with_algo-IsPump :
        (s : Service ShredId (List VersionedTransaction) EntryProcessor) (p : EntryProcessor)
        → Reach l host
            (process_entries setup Body)
            (started (run_listener_with_algo setup graduates_mode))
            s
        → s.entry_processor ≡ ok p
        → IsPump p
    unfolding run_listener_with_algo
    run_listener_with_algo-IsPump s p reach h =
        let v =
          Reach-Follows l host (process_entries setup Body)
            (run_listener_with_algo setup graduates_mode) s reach in
        for_each-invariant IsPump (process_entries setup Body) process_entries-IsPump
          (pump (record { posted = []; sent = [] })) p v.processed
          (record { posted = []; sent = [] }, refl, refl) (v.processes ∙ h)
