-- ===== src/Pump/Batch.antt =====
-- The events of a batch, and what is posted and sent.
use mathlib.Core.List.{append-nil, append_assoc, map-append}
use shreds.Base.{
  true, false, refl, ℕ, ◌<◌, ◌≡◌, inl, inr, ap, ◌∙◌, sym, nat_eq, none, some, List, [], ◌∷◌, ◌++◌,
  length, map, All, select, flat_map, ok, >>=-eq-ok, ok-inj, subst, for_each, for_each-for_each,
  arith,
}
use shreds.Transaction.{VersionedTransaction}
use shreds.Pump.{
  Borsh, ReadsFields, CreatePumpTokenEvent, is_pump, PumpEntryProcessor, create_event, push_event,
  post_event, post_events, process_entries,
}
use shreds.Pump.Event.{DescribeAll, create_event_lem}

abbrev pub IsSigned : VersionedTransaction → Type 0
IsSigned tx = 0 < length tx.signatures

-- The signatures that were sent are those of the events that were posted, in order.
abbrev pub IsPosted : PumpEntryProcessor → Type 0
IsPosted self = self.sent ≡ map (λ e. e.sig) self.posted

module _ (borsh : Borsh) (slot : ℕ) where
  select-taken :
      (tx : VersionedTransaction) (txs : List VersionedTransaction)
      → is_pump borsh tx ≡ true
      → select (is_pump borsh) (tx ∷ txs) ≡ tx ∷ select (is_pump borsh) txs
  select-taken tx txs pump = rw (select, pump) refl

  select-left :
      (tx : VersionedTransaction) (txs : List VersionedTransaction)
      → is_pump borsh tx ≡ false
      → select (is_pump borsh) (tx ∷ txs) ≡ select (is_pump borsh) txs
  select-left tx txs other = rw (select, other) refl

  -- The loop that collects the events, when every pump transaction is signed.
  collect_events :
      (layout : ReadsFields borsh) (events : List CreatePumpTokenEvent)
      (txs : List VersionedTransaction)
      → All IsSigned (select (is_pump borsh) txs)
      → (found : List CreatePumpTokenEvent) × (for_each (push_event borsh slot) events txs
          ≡ ok (events ++ found))
        × DescribeAll borsh slot (select (is_pump borsh) txs) found
  unfolding push_event
  collect_events layout events [] h = ([], ap ok (sym (append-nil events)), tt)
  collect_events layout events (tx ∷ txs) h = elim (create_event_lem borsh slot tx layout) [
    | inl (other, none_found) ↦
        let (found, p, all) =
          collect_events layout events txs (subst (All IsSigned) (select-left tx txs other) h) in
        (found, rw (for_each, push_event, none_found, append-nil events) p, rw (select, other) all)
    | inr (inl (pump, unsigned, panics)) ↦
        let (signed, _) = subst (All IsSigned) (select-taken tx txs pump) h in
        ground (arith, unsigned, signed)
    | inr (inr (pump, event, found_one, describes)) ↦
        let (found, p, all) =
          collect_events layout (events ++ (event ∷ [])) txs
            (subst (All IsSigned) (select-taken tx txs pump) h).1 in
        (
          event ∷ found,
          rw (for_each, push_event, found_one) (p ∙ ap ok (append_assoc events (event ∷ []) found)),
          rw (select, pump) (describes, all),
        )
  ]

  post_events_lem :
      (self : PumpEntryProcessor) (events : List CreatePumpTokenEvent)
      → post_events borsh self events
        ≡ record { posted = self.posted ++ events; sent = self.sent ++ map (λ e. e.sig) events }
  unfolding post_events post_event
  post_events_lem self [] = ground (arith, append-nil self.posted, append-nil self.sent)
  post_events_lem self (event ∷ events) =
      post_events_lem (post_event borsh self event) events
      ∙ ground (
        arith,
        append_assoc self.posted (event ∷ []) events,
        append_assoc self.sent (event.sig ∷ []) (map (λ e. e.sig) events),
      )

  -- With a borsh that reads the fields of a swap in their order, a batch in which each transaction that is
  -- taken for a pump transaction has a signature is processed
  -- without a panic: just these transactions have an event, and the events are posted, and their signatures
  -- sent, in the order of the transactions. An event has the slot of the batch and the first signature of
  -- its transaction, three of its account keys, the name, symbol and URI of its last create instruction,
  -- or empty texts, and the counts of its swaps modulo 2^64.
  pub posts_events :
      (layout : ReadsFields borsh) (self : PumpEntryProcessor)
      (entries : List (List VersionedTransaction))
      → All IsSigned (select (is_pump borsh) (flat_map (λ entry. entry) entries))
      → (events : List CreatePumpTokenEvent) × (process_entries borsh self slot entries
          ≡ ok (record {
            posted = self.posted ++ events;
            sent = self.sent ++ map (λ e. e.sig) events;
          }))
        × DescribeAll borsh slot (select (is_pump borsh) (flat_map (λ entry. entry) entries)) events
  unfolding process_entries
  posts_events layout self entries h =
      let (events, p, all) = collect_events layout [] (flat_map (λ entry. entry) entries) h in
      (
        events,
        rw (process_entries, for_each-for_each (push_event borsh slot) [] entries, p)
            (ap ok (post_events_lem self events)),
        all,
      )

  pub process_entries-IsPosted :
      (self next : PumpEntryProcessor) (entries : List (List VersionedTransaction))
      → IsPosted self
      → process_entries borsh self slot entries ≡ ok next
      → IsPosted next
  unfolding process_entries
  process_entries-IsPosted self next entries posted h =
      let (events, c, d) = >>=-eq-ok (for_each (for_each (push_event borsh slot)) [] entries) _ h in
      subst IsPosted (sym (post_events_lem self events) ∙ ok-inj {E = ⊥} d) (
        ap (λ sigs. sigs ++ map (λ e. e.sig) events) posted
        ∙ sym (map-append (λ (e : CreatePumpTokenEvent). e.sig) self.posted events))

  -- What the loop that collects the events has found, if it returns.
  collect_events-eq_ok :
      (layout : ReadsFields borsh) (events next : List CreatePumpTokenEvent)
      (txs : List VersionedTransaction)
      → for_each (push_event borsh slot) events txs ≡ ok next
      → (found : List CreatePumpTokenEvent) × (next ≡ events ++ found)
        × DescribeAll borsh slot (select (is_pump borsh) txs) found
  unfolding push_event
  collect_events-eq_ok layout events next [] h =
      ([], sym (ok-inj {E = ⊥} h) ∙ sym (append-nil events), tt)
  collect_events-eq_ok layout events next (tx ∷ txs) h =
      let (middle, p, q) = >>=-eq-ok (push_event borsh slot events tx) _ h in
      let (event, a, b) = >>=-eq-ok (create_event borsh slot tx) _ p in
      elim (create_event_lem borsh slot tx layout) [
        | inl (other, none_found) ↦
            let e : event ≡ none = ok-inj {E = ⊥} (sym a ∙ none_found) in
            let m : middle ≡ events =
              sym (ok-inj {E = ⊥} b)
              ∙ ap (λ o. events ++ elim o [ none ↦ [] | some x ↦ x ∷ [] ]) e
              ∙ append-nil events in
            let (found, r, all) = collect_events-eq_ok layout middle next txs q in
            (found, r ∙ ap (λ s. s ++ found) m, rw (select, other) all)
        | inr (inl (pump, unsigned, panics)) ↦ absurd (ground (arith, sym panics ∙ a))
        | inr (inr (pump, first, found_one, describes)) ↦
            let e : event ≡ some first = ok-inj {E = ⊥} (sym a ∙ found_one) in
            let m : middle ≡ events ++ (first ∷ []) =
              sym (ok-inj {E = ⊥} b)
              ∙ ap (λ o. events ++ elim o [ none ↦ [] | some x ↦ x ∷ [] ]) e in
            let (found, r, all) = collect_events-eq_ok layout middle next txs q in
            (
              first ∷ found,
              r ∙ ap (λ s. s ++ found) m ∙ append_assoc events (first ∷ []) found,
              rw (select, pump) (describes, all),
            )
      ]

  -- A batch that is processed without a panic has posted and sent just those events.
  pub process_entries-eq_ok :
      (layout : ReadsFields borsh) (self next : PumpEntryProcessor)
      (entries : List (List VersionedTransaction))
      → process_entries borsh self slot entries ≡ ok next
      → (events : List CreatePumpTokenEvent) × (next
          ≡ record { posted = self.posted ++ events; sent = self.sent ++ map (λ e. e.sig) events })
        × DescribeAll borsh slot (select (is_pump borsh) (flat_map (λ entry. entry) entries)) events
  unfolding process_entries
  process_entries-eq_ok layout self next entries h =
      let (events, c, d) = >>=-eq-ok (for_each (for_each (push_event borsh slot)) [] entries) _ h in
      let (found, e, all) =
        collect_events-eq_ok layout [] events (flat_map (λ entry. entry) entries)
          (sym (for_each-for_each (push_event borsh slot) [] entries) ∙ c) in
      (
        found,
        ok-inj {E = ⊥} (sym d) ∙ ap (post_events borsh self) e ∙ post_events_lem self found,
        all,
      )
