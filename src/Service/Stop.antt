-- ===== src/Service/Stop.antt =====
-- What a task that stops means for the others, and what the tasks can always still do.
use shreds.Base.{
  ℕ, ◌≡◌, refl, ◌∙◌, sym, subst, Bool, true, false, List, [], ◌∷◌, Outcome, ok, err, panicked,
  for_each, Outcome-cases, ◌⊎◌, inl, inr, length, ◌<◌, arith,
}
use shreds.Ledger.{Ledger}
use shreds.Processor.State.{EntriesWithMeta, ShredProcessor, Host}
use shreds.Processor.Collect.{collect}
use shreds.Service.{
  Service, Step, Reach, start, later, started, packet_of, receive_packet, send_fails, packet_panics,
  socket_error, report_metrics, receive_entries, entries_panic,
}
use shreds.Service.Trace.{collect-sent}
use shreds.Service.Run.{Reach-Follows}

module _ {Shred ShredId Entry P : Type 0} (l : Ledger Shred ShredId) (host : Host Entry)
    (process : P → EntriesWithMeta Entry → Outcome ⊥ P) where
  Reach-trans :
      {s t u : Service ShredId Entry P}
      → Reach l host process s t
      → Reach l host process t u
      → Reach l host process s u
  Reach-trans first start = first
  Reach-trans first (later second step) = later (Reach-trans first second) step

  -- Without a further packet the entry processor can take every batch out of the channel: it is left as the
  -- loop over them leaves it, or stopped if one of them makes it panic.
  pub drain :
      (self : ShredProcessor ShredId Entry) (collecting : Bool)
      (queue : List (EntriesWithMeta Entry)) (p : P)
      → Reach l host process
          (record {
            shred_processor = self;
            is_collecting = collecting;
            entry_queue = queue;
            entry_processor = ok p;
          })
          (record {
            shred_processor = self;
            is_collecting = collecting;
            entry_queue = [];
            entry_processor = for_each process p queue;
          })
  drain self collecting [] p = start
  drain self collecting (batch ∷ queue) p = elim (Outcome-cases (process p batch)) [
    | inl (next, h) ↦
        rw h (Reach-trans (later start (receive_entries h)) (drain self collecting queue next))
    | inr (inl (e, h)) ↦ absurd e
    | inr (inr h) ↦ rw h (later start (entries_panic h))
  ]

  -- What has stopped stays so: an entry processor that has panicked is never started again, and once the
  -- loop over the socket has panicked no packet changes the shred processor.
  abbrev pub Remains : Service ShredId Entry P → Service ShredId Entry P → Type 0
  Remains s t =
      (s.entry_processor ≡ panicked → t.entry_processor ≡ panicked)
      × (s.is_collecting ≡ false
          → (t.is_collecting ≡ false) × (t.shred_processor ≡ s.shred_processor))

  Step-Remains : (s t : Service ShredId Entry P) → Step l host process s t → Remains s t
  Step-Remains s t (receive_packet datagram h fits) = (λ k. k, λ k. ground arith)
  Step-Remains s t (send_fails datagram h) = (λ k. k, λ k. ground arith)
  Step-Remains s t (packet_panics datagram running h) = (λ k. k, λ k. (refl, refl))
  Step-Remains s t (socket_error running) = (λ k. k, λ k. (k, refl))
  Step-Remains s t report_metrics = (λ k. k, λ k. (k, refl))
  Step-Remains s t (receive_entries h) = (λ k. ground arith, λ k. (k, refl))
  Step-Remains s t (entries_panic h) = (λ k. ground arith, λ k. (k, refl))

  pub Reach-Remains : (s t : Service ShredId Entry P) → Reach l host process s t → Remains s t
  Reach-Remains s t start = (λ k. k, λ k. (k, refl))
  Reach-Remains s t (later {t = middle} reach step) =
      let (a, b) = Reach-Remains s middle reach in
      let (c, d) = Step-Remains middle t step in
      (λ k. c (a k), λ k. let (x, y) = b k in let (z, w) = d x in (z, w ∙ y))

  -- The service with nothing in the channel.
  abbrev waiting : ShredProcessor ShredId Entry → Bool → Outcome ⊥ P → Service ShredId Entry P
  waiting self collecting o = record {
    shred_processor = self;
    is_collecting = collecting;
    entry_queue = [];
    entry_processor = o;
  }

  empties :
      (self : ShredProcessor ShredId Entry) (collecting : Bool)
      (queue : List (EntriesWithMeta Entry)) (o : Outcome ⊥ P)
      → (o ≡ panicked → queue ≡ [])
      → (after : Outcome ⊥ P) × Reach l host process
          (record {
            shred_processor = self;
            is_collecting = collecting;
            entry_queue = queue;
            entry_processor = o;
          })
          (waiting self collecting after)
  empties self collecting queue (ok p) closed =
      (for_each process p queue, drain self collecting queue p)
  empties self collecting queue (err e) closed = absurd e
  empties self collecting queue panicked closed = (
    panicked,
    subst
        (λ q.
          Reach l host process
            (record {
              shred_processor = self;
              is_collecting = collecting;
              entry_queue = q;
              entry_processor = panicked;
            })
            (waiting self collecting panicked))
        (sym (closed refl)) start,
  )

  take_first :
      (self next : ShredProcessor ShredId Entry) (o : Outcome ⊥ P) (datagram : List ℕ)
      → collect l host self (packet_of datagram) ≡ ok next
      → (t : Service ShredId Entry P) × Step l host process
          (record {
            shred_processor = self;
            is_collecting = true;
            entry_queue = [];
            entry_processor = o;
          })
          t
        × (t.shred_processor ≡ next)
        × (t.is_collecting ≡ true)
  take_first self next (ok p) datagram h =
      let (_, one) = collect-sent l host self (packet_of datagram) next h in
      (_, receive_packet {p = p} datagram h (omega (arith, one)), refl, refl)
  take_first self next panicked datagram h = (_, send_fails datagram h, refl, refl)
  take_first self next (err e) datagram h = absurd e

  -- The packet is collected in the next step, or the entry processor takes a batch first.
  abbrev pub Advances :
      Service ShredId Entry P → ShredProcessor ShredId Entry → Service ShredId Entry P → Type 0
  Advances s next t =
      ((t.shred_processor ≡ next) × (t.is_collecting ≡ true))
      ⊎ ((t.shred_processor ≡ s.shred_processor)
          × (t.is_collecting ≡ true)
          × (length t.entry_queue < length s.entry_queue))

  advance :
      (self next : ShredProcessor ShredId Entry) (queue : List (EntriesWithMeta Entry))
      (o : Outcome ⊥ P) (datagram : List ℕ)
      → (o ≡ panicked → queue ≡ [])
      → collect l host self (packet_of datagram) ≡ ok next
      → let s : Service ShredId Entry P = record {
        shred_processor = self;
        is_collecting = true;
        entry_queue = queue;
        entry_processor = o;
      } in
        (t : Service ShredId Entry P) × Step l host process s t × Advances s next t
  advance self next [] o datagram closed h =
      let (t, step, same, running) = take_first self next o datagram h in
      (t, step, inl (same, running))
  advance self next (batch ∷ queue) (ok p) datagram closed h =
      elim (Outcome-cases (process p batch)) [
        | inl (later_p, e) ↦ (_, receive_entries e, inr (refl, refl, omega arith))
        | inr (inl (e, _)) ↦ absurd e
        | inr (inr e) ↦ (_, entries_panic e, inr (refl, refl, omega arith))
      ]
  advance self next (batch ∷ queue) (err e) datagram closed h = absurd e
  advance self next (batch ∷ queue) panicked datagram closed h =
      absurd (ground (arith, closed refl))

  pub collects_packet :
      (initial : Outcome ⊥ P) (s : Service ShredId Entry P) (datagram : List ℕ)
      (next : ShredProcessor ShredId Entry)
      → Reach l host process (started initial) s
      → s.is_collecting ≡ true
      → collect l host s.shred_processor (packet_of datagram) ≡ ok next
      → ((t : Service ShredId Entry P) × Step l host process s t × Advances s next t)
        × ((t : Service ShredId Entry P) × Reach l host process s t
            × (t.shred_processor ≡ next)
            × (t.is_collecting ≡ true))
  collects_packet initial s datagram next reach running h =
      let closed = (Reach-Follows l host process initial s reach).closed in
      let (o, emptied) =
        empties s.shred_processor s.is_collecting s.entry_queue s.entry_processor closed in
      let (t, step, same, still) = take_first s.shred_processor next o datagram h in
      (
        subst
            (λ b.
              let s : Service ShredId Entry P = record s { is_collecting = b } in
              (t : Service ShredId Entry P) × Step l host process s t × Advances s next t)
            (sym running)
            (advance s.shred_processor next s.entry_queue s.entry_processor datagram closed h),
        (
          t,
          later emptied (
              subst (λ b. Step l host process (waiting s.shred_processor b o) t) (sym running)
                step),
          same,
          still,
        ),
      )
