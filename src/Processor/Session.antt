-- ===== src/Processor/Session.antt =====
-- A session on the sample shreds: the states of the processor, and the steps between them.
use shreds.Base.{ℕ, ◌≡◌, refl, true, nat_eq, pair_eq, some, [], ◌∷◌, ok}
use shreds.Base.Assoc.{lookup, insert as insert_key, remove}
use shreds.Base.Bytes.{slice, le_bytes}
use shreds.Base.Sort.{sort_by_key}
use shreds.Sample.{ledger, host, first_data, first_coding}
use shreds.Variant.{try_from}
use shreds.Shred.Header.{
  is_shred_data, get_shred_index, get_fec_set_index, get_last_in_slot, get_coding_shred_header,
}
use shreds.Shred.Payload.{deshred, shred_data, data_range}
use shreds.Shred.Entries.{deserialize_entries}
use shreds.Processor.State.{FecSet, ShredProcessor, new_fec_set, is_fec_set_complete}
use shreds.Processor.Process.{
  finish, parse_all, add_recovered, gather, decode, conclude, process_fec_set,
}
use shreds.Processor.Collect.{
  absorb, add_data, add_coding, learn_counts, count_shred, insert, collect,
}

-- The set after the data shred, and after both shreds.
abbrev pub half_set : FecSet
half_set = record new_fec_set { data_shreds = (0, first_data) ∷ []; is_last_in_slot = true }

abbrev pub whole_set : FecSet
whole_set = record half_set {
  coding_shreds = (1, first_coding) ∷ [];
  num_expected_data = some 1;
  num_expected_coding = some 1;
}

abbrev pub empty : ShredProcessor (ℕ × ℕ) ℕ
empty = record {
  fec_sets = [];
  uniqueness = [];
  sent = [];
  total_collected_data = 0;
  total_processed_data = 0;
  total_collected_coding = 0;
  fec_set_success = 0;
  fec_set_failure = 0;
}

abbrev pub half : ShredProcessor (ℕ × ℕ) ℕ
half = record empty {
  fec_sets = ((7, 0), half_set) ∷ [];
  uniqueness = (7, 0) ∷ [];
  total_collected_data = 1;
}

abbrev pub holding : ShredProcessor (ℕ × ℕ) ℕ
holding = record half {
  fec_sets = ((7, 0), whole_set) ∷ [];
  uniqueness = (7, 1) ∷ (7, 0) ∷ [];
  total_collected_coding = 1;
}

abbrev pub done : ShredProcessor (ℕ × ℕ) ℕ
done = record holding {
  fec_sets = [];
  sent = (record { entries = 5 ∷ 6 ∷ []; slot = 7 }) ∷ [];
  total_processed_data = 1;
  fec_set_success = 1;
}

pub collects_data : collect ledger host empty first_data ≡ ok half
unfolding collect insert absorb add_data get_last_in_slot is_shred_data try_from get_shred_index
    get_fec_set_index count_shred insert_key lookup is_fec_set_complete le_bytes
collects_data = refl

pub completes : collect ledger host half first_coding ≡ ok done
unfolding collect insert absorb add_coding learn_counts get_coding_shred_header is_shred_data
    try_from get_shred_index get_fec_set_index count_shred insert_key lookup is_fec_set_complete
    process_fec_set gather parse_all add_recovered conclude decode deshred shred_data data_range
    slice deserialize_entries finish remove sort_by_key
completes = refl
