-- ===== src/Processor/Deliver/Examples.antt =====
-- A set of two data shreds whose packets come in reverse order, around the coding packet.
use mathlib.Core.List.{Permᴰ}
use mathlib.Core.List.Permᴰ
use shreds.Base.{ℕ, ◌≡◌, refl, nat_eq, pair_eq, List, [], ◌∷◌, ◌++◌, flat_map, ok, none, arith}
use shreds.Base.Assoc.{lookup}
use shreds.Base.Bytes.{slice, le_bytes, to_le_bytes}
use shreds.Sample.{
  data_shred, coding_shred, ledger, ledger-IsDocumented, ledger-NeverPanics, ledger-KeepsHeaders,
  host, first_data, encode_byte,
}
use shreds.Variant.{try_from}
use shreds.Shred.Header.{is_shred_data, get_shred_index, get_fec_set_index}
use shreds.Shred.Payload.{shred_data, data_range}
use shreds.Shred.Payload.Join.{data_or_default}
use shreds.Processor.State.{ShredProcessor}
use shreds.Processor.Collect.{collect_all}
use shreds.Processor.Session.{empty}
use shreds.Processor.Deliver.Hold.{IsDataOf, IsCodingOf}
use shreds.Processor.Deliver.Content.{YieldsAll}
use shreds.Processor.Deliver.Last.{Delivers}
use shreds.Processor.Deliver.Others.{Comes, nothing, own, again, other}
use shreds.Processor.Deliver.AnyOrder.{collect_all-Delivers}

abbrev tail_data : List ℕ
tail_data = data_shred 7 1 0 0xc0 (9 ∷ [])

abbrev counts : List ℕ
counts = coding_shred 7 2 0 2 1

host-YieldsAll : YieldsAll host
host-YieldsAll m = Permᴰ.refl _

first_data-IsDataOf : IsDataOf ledger 0 first_data
unfolding is_shred_data try_from get_shred_index get_fec_set_index le_bytes
first_data-IsDataOf = record {
  whole = (omega arith, omega arith);
  is_data = refl;
  parses = refl;
  own_index = refl;
  own_set = refl;
}

tail_data-IsDataOf : IsDataOf ledger 0 tail_data
unfolding is_shred_data try_from get_shred_index get_fec_set_index le_bytes
tail_data-IsDataOf = record {
  whole = (omega arith, omega arith);
  is_data = refl;
  parses = refl;
  own_index = refl;
  own_set = refl;
}

counts-IsCodingOf : IsCodingOf ledger 0 2 1 counts
unfolding is_shred_data try_from get_fec_set_index le_bytes
counts-IsCodingOf = record {
  whole = omega arith;
  is_coding = refl;
  own_set = refl;
  data_count = refl;
  coding_count = refl;
}

carries :
    flat_map (data_or_default ledger) (first_data ∷ tail_data ∷ [])
    ≡ to_le_bytes 8 2 ++ (flat_map encode_byte (5 ∷ 6 ∷ []) ++ (9 ∷ []))
unfolding shred_data data_range slice try_from le_bytes to_le_bytes
carries = refl

-- A packet of another slot.
abbrev elsewhere : List ℕ
elsewhere = data_shred 9 0 4 0 (3 ∷ [])

abbrev stream : List (List ℕ)
stream = tail_data ∷ elsewhere ∷ counts ∷ tail_data ∷ first_data ∷ []

elsewhere-set : get_fec_set_index ledger elsewhere ≡ ok 4
unfolding get_fec_set_index le_bytes
elsewhere-set = refl

arrive : Comes ledger host (7, 0) 1 [] stream (tail_data ∷ counts ∷ first_data ∷ [])
arrive =
    own (refl, refl, refl)
      (other (omega arith, refl, refl, (4, elsewhere-set, λ e. ground arith))
        (own (refl, refl, refl) (again refl refl (own (refl, refl, refl) nothing))))

absent : lookup (7, 0) empty.fec_sets ≡ none
unfolding lookup
absent = refl

collect_all-Delivers_example :
    (last : ShredProcessor (ℕ × ℕ) ℕ) × (collect_all ledger host stream empty ≡ ok last)
    × Delivers 1 (7, 0) (5 ∷ 6 ∷ []) empty last
collect_all-Delivers_example =
    collect_all-Delivers ledger host ledger-NeverPanics ledger-IsDocumented ledger-KeepsHeaders
      host-YieldsAll refl encode_byte (λ entry rest. refl) (7, 0) 1 1 (first_data ∷ tail_data ∷ [])
      (5 ∷ 6 ∷ []) (9 ∷ []) empty (tail_data ∷ []) (first_data ∷ []) counts stream (omega arith)
      (first_data-IsDataOf, (tail_data-IsDataOf, tt)) ((omega arith, tt), (tt, tt)) (omega arith)
      (omega arith) carries tt absent (Permᴰ.swap refl refl) counts-IsCodingOf arrive
