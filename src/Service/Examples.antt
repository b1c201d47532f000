-- ===== src/Service/Examples.antt =====
-- A run of the service on the sample packets: two datagrams complete a set, and its batch is processed.
use shreds.Base.{ℕ, ◌≡◌, refl, true, List, [], ◌∷◌, ◌++◌, Outcome, ok, arith}
use shreds.Sample.{ledger, host, first_data, first_coding}
use shreds.Processor.State.{EntriesWithMeta, new}
use shreds.Processor.Session.{empty, half, done, collects_data, completes}
use shreds.Service.{Service, Step, Reach, start, later, started, receive_packet, receive_entries}
use shreds.Service.Run.{Follows, Reach-Follows}
use shreds.Service.Stop.{Advances, collects_packet}

-- An entry processor that keeps the entries.
abbrev keep_entries : List ℕ → EntriesWithMeta ℕ → Outcome ⊥ (List ℕ)
keep_entries kept batch = ok (kept ++ batch.entries)

abbrev begun : Service (ℕ × ℕ) ℕ (List ℕ)
begun = record {
  shred_processor = empty;
  is_collecting = true;
  entry_queue = [];
  entry_processor = ok [];
}

abbrev one_packet : Service (ℕ × ℕ) ℕ (List ℕ)
one_packet = record begun { shred_processor = half }

abbrev queued : Service (ℕ × ℕ) ℕ (List ℕ)
queued = record begun {
  shred_processor = done;
  entry_queue = record { entries = 5 ∷ 6 ∷ []; slot = 7 } ∷ [];
}

abbrev taken : Service (ℕ × ℕ) ℕ (List ℕ)
taken = record queued { entry_queue = []; entry_processor = ok (5 ∷ 6 ∷ []) }

to_one_packet : Reach ledger host keep_entries (started (ok [])) one_packet
unfolding new
to_one_packet = later start (receive_packet first_data collects_data (omega arith))

to_queued : Reach ledger host keep_entries (started (ok [])) queued
to_queued = later to_one_packet (receive_packet first_coding completes (omega arith))

to_taken : Reach ledger host keep_entries (started (ok [])) taken
to_taken = later to_queued (receive_entries refl)

Reach-Follows_example : Follows ledger host keep_entries (ok []) taken
Reach-Follows_example = Reach-Follows ledger host keep_entries (ok []) taken to_taken

collects_packet_example :
    ((t : Service (ℕ × ℕ) ℕ (List ℕ)) × Step ledger host keep_entries one_packet t
      × Advances ledger host keep_entries one_packet done t)
    × ((t : Service (ℕ × ℕ) ℕ (List ℕ)) × Reach ledger host keep_entries one_packet t
        × (t.shred_processor ≡ done)
        × (t.is_collecting ≡ true))
collects_packet_example =
    collects_packet ledger host keep_entries (ok []) one_packet first_coding done to_one_packet refl
      completes
