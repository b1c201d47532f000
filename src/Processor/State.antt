-- ===== src/Processor/State.antt =====
-- src/shred_processor.rs: `FecSet`, `ShredProcessor` and what they are made of.
pub mod Complete
use shreds.Base.{
  ℕ, ◌+◌, ◌<◌, Bool, true, false, not, ◌||◌, ◌==◌, nat_eq, leb, if◌then◌else◌, Option, none, some,
  List, [], ◌∷◌, length, select, map,
}
use shreds.Ledger.{Ledger}

-- `EntriesWithMeta` of src/entry_processor.rs.
pub record EntriesWithMeta (Entry : Type 0) : Type 0 where
  pub entries : List Entry
  pub slot : ℕ

-- Raw shreds by their index. The order of such a list is that of insertion.
abbrev pub RawShreds : Type 0
RawShreds = List (ℕ × List ℕ)

pub record FecSet : Type 0 where
  pub data_shreds : RawShreds
  pub coding_shreds : RawShreds
  pub num_expected_data : Option ℕ
  pub num_expected_coding : Option ℕ
  pub is_last_in_slot : Bool
  pub processed : Bool

-- A set's key is its slot and its index. `sent` is what was handed to the channel `entry_tx`.
pub record ShredProcessor (ShredId Entry : Type 0) : Type 0 where
  pub fec_sets : List ((ℕ × ℕ) × FecSet)
  pub uniqueness : List ShredId
  pub sent : List (EntriesWithMeta Entry)
  pub total_collected_data : ℕ
  pub total_processed_data : ℕ
  pub total_collected_coding : ℕ
  pub fec_set_success : ℕ
  pub fec_set_failure : ℕ

-- What the processor takes from its surroundings: bincode's reader of one entry, whether trace
-- messages are formatted, and the order in which a `HashMap` yields its values.
pub record Host (Entry : Type 0) : Type 0 where
  pub read_entry : List ℕ → Option Entry × List ℕ
  pub tracing : Bool
  pub values : RawShreds → List (List ℕ)

-- `ShredProcessor::new`
unfoldable pub new : {ShredId Entry : Type 0} → ShredProcessor ShredId Entry
new = record {
  fec_sets = [];
  uniqueness = [];
  sent = [];
  total_collected_data = 0;
  total_processed_data = 0;
  total_collected_coding = 0;
  fec_set_success = 0;
  fec_set_failure = 0;
}

-- The value that `or_insert_with` makes.
abbrev pub new_fec_set : FecSet
new_fec_set = record {
  data_shreds = [];
  coding_shreds = [];
  num_expected_data = none;
  num_expected_coding = none;
  is_last_in_slot = false;
  processed = false;
}

abbrev pub counts_complete : ℕ → ℕ → Option ℕ → Option ℕ → Bool
counts_complete data_count coding_count (some expected_data) (some expected_coding) =
    data_count == expected_data || leb (expected_data + expected_coding) (data_count + coding_count)
counts_complete data_count coding_count none expected_coding = false
counts_complete data_count coding_count (some expected_data) none = false

unfoldable pub is_fec_set_complete : FecSet → Bool
is_fec_set_complete fec_set =
    counts_complete (length fec_set.data_shreds) (length fec_set.coding_shreds)
      fec_set.num_expected_data fec_set.num_expected_coding

-- The numbers that `metrics` reports.
pub record Metrics : Type 0 where
  pub total_collected_data : ℕ
  pub total_collected_coding : ℕ
  pub total_processed_data : ℕ
  pub fec_set_success_count : ℕ
  pub fec_set_failure_count : ℕ
  pub fec_sets_remaining : ℕ
  pub total_count : ℕ
  pub incomplete_count : ℕ

module _ {ShredId Entry : Type 0} where
  -- The sets that `dump_hanging_fec_sets` writes out.
  unfoldable pub incomplete_sets : ShredProcessor ShredId Entry → List ((ℕ × ℕ) × FecSet)
  unfolding is_fec_set_complete
  incomplete_sets self = select (λ e. not (is_fec_set_complete e.1)) self.fec_sets

  unfoldable pub metrics : ShredProcessor ShredId Entry → Metrics
  unfolding incomplete_sets
  metrics self = record {
    total_collected_data = self.total_collected_data;
    total_collected_coding = self.total_collected_coding;
    total_processed_data = self.total_processed_data;
    fec_set_success_count = self.fec_set_success;
    fec_set_failure_count = self.fec_set_failure;
    fec_sets_remaining = length self.fec_sets;
    total_count = length self.fec_sets;
    incomplete_count = length (incomplete_sets self);
  }

  -- `metrics` also dumps the incomplete sets, once, when there are more than 1000.
  unfoldable pub dumps_hanging_fec_sets : ShredProcessor ShredId Entry → Bool → Bool
  unfolding incomplete_sets
  dumps_hanging_fec_sets self file_exists =
      if leb (length (incomplete_sets self)) 1000 then false else not file_exists
