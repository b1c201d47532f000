-- ===== src/Service/Modes/Session.antt =====
-- The sample packets for entries of transactions: each of the two bytes is the same entry.
use shreds.Base.{
  ℕ, ◌≡◌, refl, true, false, nat_eq, pair_eq, Option, none, some, List, [], ◌∷◌, ok, arith,
}
use shreds.Base.Assoc.{lookup, insert as insert_key, remove}
use shreds.Base.Bytes.{slice, le_bytes}
use shreds.Base.Sort.{sort_by_key}
use shreds.Sample.{ledger, stored, first_data, first_coding}
use shreds.Variant.{try_from}
use shreds.Shred.Header.{
  is_shred_data, get_shred_index, get_fec_set_index, get_last_in_slot, get_coding_shred_header,
}
use shreds.Shred.Payload.{deshred, shred_data, data_range}
use shreds.Shred.Entries.{deserialize_entries}
use shreds.Transaction.{VersionedTransaction}
use shreds.Processor.State.{EntriesWithMeta, ShredProcessor, Host, new, is_fec_set_complete}
use shreds.Processor.Session.{half_set}
use shreds.Processor.Process.{
  finish, parse_all, add_recovered, gather, decode, conclude, process_fec_set,
}
use shreds.Processor.Collect.{
  absorb, add_data, add_coding, learn_counts, count_shred, insert, collect,
}
use shreds.Service.{
  Service, Reach, start, later, started, receive_packet, receive_entries, EntryProcessor, Setup,
  process_entries,
}

abbrev pub Batch : Type 0
Batch = EntriesWithMeta (List VersionedTransaction)

abbrev pub Processor : Type 0
Processor = ShredProcessor (ℕ × ℕ) (List VersionedTransaction)

module _ (entry : List VersionedTransaction) where
  abbrev read_one : List ℕ → Option (List VersionedTransaction) × List ℕ
  read_one [] = (none, [])
  read_one (b ∷ bytes) = (some entry, bytes)

  abbrev pub host : Host (List VersionedTransaction)
  host = record { read_entry = read_one; tracing = false; values = stored }

  abbrev pub empty : Processor
  empty = record {
    fec_sets = [];
    uniqueness = [];
    sent = [];
    total_collected_data = 0;
    total_processed_data = 0;
    total_collected_coding = 0;
    fec_set_success = 0;
    fec_set_failure = 0;
  }

  abbrev pub half : Processor
  half = record empty {
    fec_sets = ((7, 0), half_set) ∷ [];
    uniqueness = (7, 0) ∷ [];
    total_collected_data = 1;
  }

  abbrev pub batch : Batch
  batch = record { entries = entry ∷ entry ∷ []; slot = 7 }

  abbrev pub done : Processor
  done = record half {
    fec_sets = [];
    uniqueness = (7, 1) ∷ (7, 0) ∷ [];
    sent = batch ∷ [];
    total_collected_coding = 1;
    total_processed_data = 1;
    fec_set_success = 1;
  }

  collects_data : collect ledger host empty first_data ≡ ok half
  unfolding collect insert absorb add_data get_last_in_slot is_shred_data try_from get_shred_index
      get_fec_set_index count_shred insert_key lookup is_fec_set_complete le_bytes
  collects_data = refl

  completes : collect ledger host half first_coding ≡ ok done
  unfolding collect insert absorb add_coding learn_counts get_coding_shred_header is_shred_data
      try_from get_shred_index get_fec_set_index count_shred insert_key lookup is_fec_set_complete
      process_fec_set gather parse_all add_recovered conclude decode deshred shred_data data_range
      slice deserialize_entries finish remove sort_by_key
  completes = refl

  abbrev pub after_batch :
      EntryProcessor → Service (ℕ × ℕ) (List VersionedTransaction) EntryProcessor
  after_batch p = record {
    shred_processor = done;
    is_collecting = true;
    entry_queue = [];
    entry_processor = ok p;
  }

  -- The run, for an entry processor that starts and takes the batch.
  pub to_after_batch :
      (setup : Setup) (first next : EntryProcessor)
      → process_entries setup (Unit {0}) first batch ≡ ok next
      → Reach ledger host (process_entries setup (Unit {0})) (started (ok first)) (after_batch next)
  unfolding new
  to_after_batch setup first next h =
      later
        (later (later start (receive_packet first_data collects_data (omega arith)))
          (receive_packet first_coding completes (omega arith)))
        (receive_entries h)
