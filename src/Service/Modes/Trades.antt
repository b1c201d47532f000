-- ===== src/Service/Modes/Trades.antt =====
-- What a service in arb mode counts and sends.
use mathlib.Core.List.{append-nil}
use shreds.Base.{
  All, ℕ, ◌≡◌, refl, ap, ◌∙◌, sym, List, [], ◌∷◌, ◌++◌, flat_map, ok, >>=-eq-ok, ok-inj, for_each,
  arith,
}
use shreds.Ledger.{Ledger}
use shreds.Transaction.{VersionedTransaction}
use shreds.Processor.State.{EntriesWithMeta, Host}
use shreds.Service.{
  Service, Reach, started, arb_mode, EntryProcessor, arb, Setup, start_arb, initialize_pools_state,
  run, process_entries,
}
use shreds.Service.Run.{Reach-Follows}
use shreds.Raydium.Swap.{RaydiumAmmPool}
use shreds.Arb.Pools.{PoolsState}
use shreds.Arb.Pools.Update.{Fits}
use shreds.Arb.Pools.Initialize.{default_state}
use shreds.Arb.Pools.Initialize.Loads.{AmountsFit, IsPool, initialize-IsPool, initialize-SameCounts}
use shreds.Arb.Entries.{ArbEntryProcessor}
use shreds.Arb.Entries as Arb
use shreds.Arb.Entries.Counts.{CountsFit, Processes, Processes-trans, process_entries_lem}
use shreds.Service.Modes.{transactions}

module _ (setup : Setup) (Body : Type 0) where
  no_entries :
      (self : ArbEntryProcessor)
      → Arb.process_entries setup.math Body setup.programs self [] ≡ ok self
  unfolding Arb.process_entries
  no_entries self = refl

  AllPools-Fits :
      (fits : AmountsFit setup.chain) (pools : List (ℕ × RaydiumAmmPool))
      → All (IsPool setup.json setup.chain fits) pools
      → All (λ entry. Fits entry.1) pools
  AllPools-Fits fits [] all = tt
  AllPools-Fits fits (pool ∷ pools) all = (all.0.2, AllPools-Fits fits pools all.1)

  loaded-CountsFit :
      (fits : AmountsFit setup.chain) (pools_state : PoolsState)
      → initialize_pools_state setup ≡ ok pools_state
      → CountsFit setup.programs (record { pools_state = pools_state; sent = [] })
  loaded-CountsFit fits pools_state loaded =
      let (a, b, c) =
        initialize-SameCounts setup.json setup.chain setup.raydium_json default_state pools_state
          loaded in
      let pools =
        initialize-IsPool setup.json setup.chain fits setup.raydium_json default_state pools_state
          tt loaded in
      (
        omega (arith, a),
        omega (arith, b),
        omega (arith, c),
        AllPools-Fits fits pools_state.raydium_pools pools,
      )

  arb_loop :
      (self : ArbEntryProcessor) (batches : List (EntriesWithMeta (List VersionedTransaction)))
      (p : EntryProcessor)
      → CountsFit setup.programs self
      → for_each (process_entries setup Body) (arb self) batches ≡ ok p
      → (last : ArbEntryProcessor) × (p ≡ arb last)
        × Processes setup.programs (transactions batches) self last
  unfolding process_entries
  arb_loop self [] p fit h = (
    self,
    ok-inj {E = ⊥} (sym h),
    (process_entries_lem setup.math Body setup.programs self self [] fit (no_entries self)).0,
  )
  arb_loop self (batch ∷ batches) p fit h =
      let (q, a, b) = >>=-eq-ok (process_entries setup Body (arb self) batch) _ h in
      let (next, c, d) =
        >>=-eq-ok (Arb.process_entries setup.math Body setup.programs self batch.entries) _ a in
      let (first, fit') =
        process_entries_lem setup.math Body setup.programs self next batch.entries fit c in
      let (last, e, rest) =
        arb_loop next batches p fit'
          (ap (λ r. for_each (process_entries setup Body) r batches) (ok-inj {E = ⊥} d) ∙ b) in
      (
        last,
        e,
        Processes-trans setup.programs (flat_map (λ entry. entry) batch.entries)
            (transactions batches) self next last first rest,
      )

  module _ {Shred ShredId : Type 0} (l : Ledger Shred ShredId)
      (host : Host (List VersionedTransaction)) where
    -- In the mode `Arb`, where the amounts that come from the chain are words, at every moment at which the
    -- entry processor runs: the pools were loaded, each under its own key and with a mint of interest that
    -- it trades; the counters have advanced, modulo 2^64, by the numbers of transactions of each kind in
    -- the batches that it took; it has sent the first signatures of the amm transactions, in order; the
    -- pools have kept their keys and all but their amounts; and these batches and those in the channel
    -- are what the shred processor sent.
    pub run-arb :
        (fits : AmountsFit setup.chain)
        (s : Service ShredId (List VersionedTransaction) EntryProcessor) (p : EntryProcessor)
        → Reach l host (process_entries setup Body) (started (run setup arb_mode)) s
        → s.entry_processor ≡ ok p
        → (processed : List (EntriesWithMeta (List VersionedTransaction)))
          × (pools_state : PoolsState) × (self : ArbEntryProcessor) × (s.shred_processor.sent
              ≡ processed ++ s.entry_queue)
          × (initialize_pools_state setup ≡ ok pools_state)
          × All (IsPool setup.json setup.chain fits) pools_state.raydium_pools
          × (p ≡ arb self)
          × Processes setup.programs
              (transactions processed)
              (record { pools_state = pools_state; sent = [] })
              self
    unfolding run
    run-arb fits s p reach h =
        let v = Reach-Follows l host (process_entries setup Body) (run setup arb_mode) s reach in
        let (first, begun, loop) =
          >>=-eq-ok (start_arb setup) (λ i. for_each (process_entries setup Body) i v.processed)
            (v.processes ∙ h) in
        let (pools_state, loaded, is_first) =
          >>=-eq-ok (initialize_pools_state setup)
            (λ pools. ok (arb (record { pools_state = pools; sent = [] }))) begun in
        let pools =
          initialize-IsPool setup.json setup.chain fits setup.raydium_json default_state pools_state
            tt loaded in
        let (self, e, done) =
          arb_loop (record { pools_state = pools_state; sent = [] }) v.processed p
            (loaded-CountsFit fits pools_state loaded)
            (ap (λ i. for_each (process_entries setup Body) i v.processed) (ok-inj {E = ⊥} is_first)
              ∙ loop) in
        (
          v.processed,
          pools_state,
          self,
          v.batches
              ∙ ap (λ r. v.processed ++ r)
                  (ap (λ r. s.entry_queue ++ r) (v.none_lost p h) ∙ append-nil s.entry_queue),
          loaded,
          pools,
          e,
          done,
        )
