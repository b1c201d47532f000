-- ===== src/Service/Run.antt =====
-- The service against a program without tasks: one loop over the packets, and one over the batches.
use mathlib.Core.List.{append-nil, append_assoc}
use shreds.Base.{
  ℕ, ◌+◌, ◌%◌, ◌≤◌, ◌≡◌, refl, ap, ◌∙◌, sym, false, List, [], ◌∷◌, ◌++◌, length, length-append,
  Outcome, ok, panicked, ◌>>=◌, for_each, for_each-snoc, >>=-ok, >>=-eq-ok, arith,
}
use shreds.Ledger.{Ledger}
use shreds.Processor.State.{EntriesWithMeta, Host, new}
use shreds.Processor.Collect.{collect}
use shreds.Processor.Collect.Invariant.{Inv}
use shreds.Base.Words.{u128_mod}
use shreds.Service.{
  Service, Step, Reach, start, later, started, packet_of, newly_sent, channel_size, receive_packet,
  send_fails, packet_panics, socket_error, report_metrics, receive_entries, entries_panic,
}
use shreds.Service.Trace.{collected, collect-sent, collected-Inv}

module _ {A : Type 0} where
  -- More in the queue, when nothing is lost; and more that is lost, when the queue is empty.
  more_in_queue :
      (done queue lost added : List A)
      → lost ≡ []
      → (done ++ (queue ++ lost)) ++ added ≡ done ++ ((queue ++ added) ++ lost)
  more_in_queue done queue lost added e =
      rw (e, append-nil queue, append-nil (queue ++ added)) (append_assoc done queue added)

module _ {Shred ShredId Entry P : Type 0} (l : Ledger Shred ShredId) (host : Host Entry)
    (process : P → EntriesWithMeta Entry → Outcome ⊥ P) where
  abbrev pub processed_all : Outcome ⊥ P → List (EntriesWithMeta Entry) → Outcome ⊥ P
  processed_all initial batches = initial >>= λ p. for_each process p batches

  processed_all-snoc :
      (initial : Outcome ⊥ P) (batches : List (EntriesWithMeta Entry))
      (batch : EntriesWithMeta Entry) (p : P)
      → processed_all initial batches ≡ ok p
      → processed_all initial (batches ++ (batch ∷ [])) ≡ process p batch
  processed_all-snoc initial batches batch p h =
      let (q, e, r) = >>=-eq-ok initial _ h in
      ap (λ i. processed_all i (batches ++ (batch ∷ []))) e
      ∙ for_each-snoc process q p batches batch r

  -- The shred processor is what the packets leave that were received, one after another; of the batches
  -- that it sent, some have been through the entry processor, in order, the next are in the channel,
  -- and none is lost while the entry processor runs; a task that has stopped has panicked.
  pub record Follows (initial : Outcome ⊥ P) (s : Service ShredId Entry P) : Type 0 where
    pub datagrams : List (List ℕ)
    pub processed : List (EntriesWithMeta Entry)
    pub lost : List (EntriesWithMeta Entry)
    pub collects : collected l host datagrams ≡ ok s.shred_processor
    pub stopped :
        s.is_collecting ≡ false
        → (datagram : List ℕ) × (collect l host s.shred_processor (packet_of datagram) ≡ panicked)
    pub batches : s.shred_processor.sent ≡ processed ++ (s.entry_queue ++ lost)
    pub processes : processed_all initial processed ≡ s.entry_processor
    pub none_lost : (p : P) → s.entry_processor ≡ ok p → lost ≡ []
    pub closed : s.entry_processor ≡ panicked → s.entry_queue ≡ []
    pub bounded : length s.entry_queue ≤ channel_size

  started-Follows : (initial : Outcome ⊥ P) → Follows initial (started initial)
  unfolding new
  started-Follows initial = record {
    datagrams = [];
    processed = [];
    lost = [];
    collects = refl;
    stopped = λ h. ground arith;
    batches = refl;
    processes = >>=-ok initial;
    none_lost = λ p h. refl;
    closed = λ h. refl;
    bounded = omega arith;
  }

  Step-Follows :
      (initial : Outcome ⊥ P) (s t : Service ShredId Entry P)
      → Follows initial s
      → Step l host process s t
      → Follows initial t
  Step-Follows initial s t v (receive_packet {self} {next} {queue} {p} datagram h fits) = record {
    datagrams = v.datagrams ++ (datagram ∷ []);
    processed = v.processed;
    lost = v.lost;
    collects = for_each-snoc _ new self v.datagrams datagram v.collects ∙ h;
    stopped = λ k. ground arith;
    batches =
        (collect-sent l host self (packet_of datagram) next h).0
        ∙ ap (λ r. r ++ newly_sent self next) v.batches
        ∙ more_in_queue v.processed queue v.lost (newly_sent self next) (v.none_lost p refl);
    processes = v.processes;
    none_lost = v.none_lost;
    closed = λ k. ground arith;
    bounded = fits;
  }
  Step-Follows initial s t v (send_fails {self} {next} datagram h) = record {
    datagrams = v.datagrams ++ (datagram ∷ []);
    processed = v.processed;
    lost = v.lost ++ newly_sent self next;
    collects = for_each-snoc _ new self v.datagrams datagram v.collects ∙ h;
    stopped = λ k. ground arith;
    batches =
        (collect-sent l host self (packet_of datagram) next h).0
        ∙ ap (λ r. r ++ newly_sent self next) v.batches
        ∙ append_assoc v.processed v.lost (newly_sent self next);
    processes = v.processes;
    none_lost = λ p k. ground arith;
    closed = v.closed;
    bounded = v.bounded;
  }
  Step-Follows initial s t v (packet_panics datagram running h) = record {
    datagrams = v.datagrams;
    processed = v.processed;
    lost = v.lost;
    collects = v.collects;
    stopped = λ k. (datagram, h);
    batches = v.batches;
    processes = v.processes;
    none_lost = v.none_lost;
    closed = v.closed;
    bounded = v.bounded;
  }
  Step-Follows initial s t v (socket_error running) = v
  Step-Follows initial s t v report_metrics = v
  Step-Follows initial s t v (receive_entries {self} {collecting} {batch} {queue} {p} {next} h) =
      record {
        datagrams = v.datagrams;
        processed = v.processed ++ (batch ∷ []);
        lost = v.lost;
        collects = v.collects;
        stopped = v.stopped;
        batches = v.batches ∙ sym (append_assoc v.processed (batch ∷ []) (queue ++ v.lost));
        processes = processed_all-snoc initial v.processed batch p v.processes ∙ h;
        none_lost = λ q k. v.none_lost p refl;
        closed = λ k. ground arith;
        bounded = omega (arith, v.bounded);
      }
  Step-Follows initial s t v (entries_panic {self} {collecting} {batch} {queue} {p} h) = record {
    datagrams = v.datagrams;
    processed = v.processed ++ (batch ∷ []);
    lost = queue ++ v.lost;
    collects = v.collects;
    stopped = v.stopped;
    batches = v.batches ∙ sym (append_assoc v.processed (batch ∷ []) (queue ++ v.lost));
    processes = processed_all-snoc initial v.processed batch p v.processes ∙ h;
    none_lost = λ q k. ground arith;
    closed = λ k. refl;
    bounded = omega arith;
  }

  -- Whatever order the tasks run in, the state of the service is that of two loops, one over the packets
  -- that were received, cut to the size of the buffer, and one over batches: `Follows` says that the first
  -- loop leaves the shred processor; that the batches it sent are those that the second loop has seen,
  -- in order, then those in the channel, then those that are lost; that the second loop leaves the entry
  -- processor, and nothing is lost while that runs; that the channel is never over its capacity and is
  -- empty once the entry processor has stopped; and that the loop over the socket has stopped only if a
  -- packet made it panic.
  pub Reach-Follows :
      (initial : Outcome ⊥ P) (s : Service ShredId Entry P)
      → Reach l host process (started initial) s
      → Follows initial s
  Reach-Follows initial s start = started-Follows initial
  Reach-Follows initial s (later {t} reach step) =
      Step-Follows initial t s (Reach-Follows initial t reach) step

  -- At every moment the shred processor satisfies its invariant; and while the entry processor runs, each
  -- batch that was counted as a success has been processed or is in the channel.
  pub Reach-Inv :
      (initial : Outcome ⊥ P) (s : Service ShredId Entry P)
      → Reach l host process (started initial) s
      → Inv l host s.shred_processor
        × ((p : P)
            → s.entry_processor ≡ ok p
            → (processed : List (EntriesWithMeta Entry)) × (processed_all initial processed ≡ ok p)
              × (s.shred_processor.fec_set_success
                  ≡ (length processed + length s.entry_queue) % u128_mod))
  Reach-Inv initial s reach =
      let v = Reach-Follows initial s reach in
      let inv = collected-Inv l host v.datagrams s.shred_processor v.collects in
      (
        inv,
        λ p h. (
          v.processed,
          v.processes ∙ h,
          omega (
            arith,
            inv.successes,
            ap length (v.batches ∙ ap (λ r. v.processed ++ (s.entry_queue ++ r)) (v.none_lost p h)),
            length-append v.processed (s.entry_queue ++ []),
            length-append s.entry_queue [],
          ),
        ),
      )
