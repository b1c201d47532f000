-- ===== src/Processor/Examples.antt =====
-- The theorems on the processor at the sample session.
use shreds.Base.{
  ℕ, ◌≡◌, ◌↔◌, refl, true, false, nat_eq, pair_eq, some, List, [], ◌∷◌, ◌++◌, length, map, take, ok,
  panicked, arith,
}
use shreds.Base.Assoc.{lookup, remove, insert as insert_key}
use shreds.Base.Bytes.{le_bytes, slice}
use shreds.Sample.{
  data_shred, coding_shred, ledger, ledger-IsDocumented, ledger-NeverPanics, ledger-KeepsHeaders,
  host, first_data, first_coding,
}
use shreds.Variant.{try_from}
use shreds.Shred.Header.{is_shred_data, get_shred_index, get_fec_set_index, get_last_in_slot}
use shreds.Processor.State.{FecSet, ShredProcessor, RawShreds, new, is_fec_set_complete}
use shreds.Processor.State.Complete.{is_fec_set_complete_iff}
use shreds.Shred.Payload.{deshred, shred_data, data_range}
use shreds.Shred.Entries.{deserialize_entries}
use shreds.Base.Sort.{sort_by_key}
use shreds.Processor.Process.Branches.{Settles, process_fec_set-Settles}
use shreds.Processor.Process.{
  finish, parse_all, add_recovered, gather, decode, conclude, process_fec_set,
}
use shreds.Processor.Collect.{absorb, add_data, count_shred, insert, collect}
use shreds.Processor.Collect.Unique.{collect-collect, insert-lookup_ne}
use shreds.Processor.Collect.Invariant.{Inv, new-Inv, collect-Inv}
use shreds.Processor.Collect.Panics.{collect_panics, collect_total}
use shreds.Processor.Collect.Late.{finish-insert_late}
use shreds.Processor.Session.{
  half_set, whole_set, empty, half, holding, done, collects_data, completes,
}

empty-Inv : Inv ledger host empty
unfolding new
empty-Inv = new-Inv ledger host

collect-Inv_example : Inv ledger host half
collect-Inv_example = collect-Inv ledger host empty first_data half empty-Inv collects_data

collect-collect_example : collect ledger host done first_coding ≡ ok done
collect-collect_example = collect-collect ledger host half first_coding done completes

first_data-fec_index : get_fec_set_index ledger first_data ≡ ok 0
unfolding get_fec_set_index le_bytes
first_data-fec_index = refl

abbrev with_other : ShredProcessor (ℕ × ℕ) ℕ
with_other = record empty { fec_sets = ((6, 3), half_set) ∷ [] }

abbrev with_both : ShredProcessor (ℕ × ℕ) ℕ
with_both = record with_other {
  fec_sets = ((6, 3), half_set) ∷ ((7, 0), half_set) ∷ [];
  total_collected_data = 1;
}

inserts_beside : insert ledger host with_other 7 first_data ≡ ok with_both
unfolding insert absorb add_data get_last_in_slot is_shred_data try_from get_shred_index
    get_fec_set_index count_shred insert_key lookup is_fec_set_complete le_bytes
inserts_beside = refl

insert-lookup_ne_example : lookup (6, 3) with_both.fec_sets ≡ lookup (6, 3) with_other.fec_sets
unfolding lookup
insert-lookup_ne_example =
    insert-lookup_ne ledger host with_other 7 first_data with_both (6, 3) 0 inserts_beside
      first_data-fec_index (refl, tt) (λ e. ground arith)

is_fec_set_complete_iff_example :
    (is_fec_set_complete whole_set ≡ true) ↔ (length whole_set.data_shreds ≡ 1)
is_fec_set_complete_iff_example =
    is_fec_set_complete_iff whole_set 1 1 refl refl (omega arith) (omega arith)

finishes : process_fec_set ledger host holding (7, 0) ≡ ok done
unfolding process_fec_set lookup gather parse_all add_recovered sort_by_key conclude decode deshred
    shred_data data_range try_from le_bytes slice deserialize_entries get_last_in_slot is_shred_data
    finish remove
finishes = refl

process_fec_set-Settles_example : Settles holding (7, 0) done
unfolding lookup
process_fec_set-Settles_example =
    process_fec_set-Settles ledger host holding (7, 0) done (refl, tt) finishes

-- Another order of the values: the newest first. Two data shreds.
abbrev backwards : RawShreds → List (List ℕ)
backwards [] = []
backwards (e ∷ []) = e.1 ∷ []
backwards (e ∷ f ∷ r) = f.1 ∷ e.1 ∷ map (λ x. x.1) r

abbrev second_data : List ℕ
second_data = data_shred 7 1 0 0xc0 (9 ∷ [])

abbrev two_set : FecSet
two_set = record whole_set {
  data_shreds = (0, first_data) ∷ (1, second_data) ∷ [];
  num_expected_data = some 2;
}

abbrev holding_two : ShredProcessor (ℕ × ℕ) ℕ
holding_two = record holding { fec_sets = ((7, 0), two_set) ∷ [] }

holding_two-found : lookup (7, 0) holding_two.fec_sets ≡ some two_set
unfolding lookup
holding_two-found = refl

collect_total_example :
    (next : ShredProcessor (ℕ × ℕ) ℕ) × (collect ledger host half first_coding ≡ ok next)
collect_total_example =
    collect_total ledger host ledger-IsDocumented ledger-NeverPanics ledger-KeepsHeaders refl half
      first_coding (omega arith)

-- A coding shred without the last byte of its header.
abbrev short_coding : List ℕ
short_coding = take 0x58 first_coding

short_coding-is_code : is_shred_data ledger short_coding ≡ false
unfolding is_shred_data try_from
short_coding-is_code = refl

short_coding-fec_index : get_fec_set_index ledger short_coding ≡ ok 0
unfolding get_fec_set_index le_bytes
short_coding-fec_index = refl

collect_panics_example : collect ledger host empty short_coding ≡ panicked
unfolding lookup
collect_panics_example =
    collect_panics ledger host empty short_coding (7, 1) 0 refl refl refl short_coding-is_code
      short_coding-fec_index refl

abbrev late_coding : List ℕ
late_coding = coding_shred 7 2 0 1 1

late_coding-fec_index : get_fec_set_index ledger late_coding ≡ ok 0
unfolding get_fec_set_index le_bytes
late_coding-fec_index = refl

finish-insert_late_example :
    (next : ShredProcessor (ℕ × ℕ) ℕ) × (insert ledger host
        (finish holding (7, 0) 1 (5 ∷ 6 ∷ []))
        7
        late_coding
      ≡ ok next)
    × ((fec_set : FecSet) × (lookup (7, 0) next.fec_sets ≡ some fec_set)
        × (is_fec_set_complete fec_set ≡ false))
    × (next.sent ≡ holding.sent ++ (record { entries = 5 ∷ 6 ∷ []; slot = 7 } ∷ []))
unfolding lookup le_bytes
finish-insert_late_example =
    finish-insert_late ledger host holding (7, 0) 1 (5 ∷ 6 ∷ []) late_coding (refl, tt)
      late_coding-fec_index (omega arith) (λ e. (omega arith, omega arith))
