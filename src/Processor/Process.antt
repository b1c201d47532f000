-- ===== src/Processor/Process.antt =====
-- src/shred_processor.rs: `process_fec_set`.
pub mod Branches
pub mod Order
pub mod Total
use shreds.Base.{
  ℕ, ◌+◌, ◌%◌, Bool, true, false, ltb, if◌then◌else◌, ◌==◌, nat_eq, pair_eq, Option, none, some,
  List, [], ◌∷◌, ◌++◌, length, select, Outcome, ok, err, panicked, ◌>>=◌,
}
use shreds.Base.Assoc.{lookup, remove}
use shreds.Base.Sort.{sort_by_key}
use shreds.Base.Words.{u128_mod}
use shreds.Ledger.{Ledger, Error}
use shreds.Shred.Header.{ShredError}
use shreds.Shred.Payload.{deshred}
use shreds.Shred.Entries.{EntriesError, deserialize_entries}
use shreds.Shred.Repair.{is_empty}
use shreds.Processor.State.{EntriesWithMeta, FecSet, ShredProcessor, Host}

abbrev pub unwrap_or : Option ℕ → ℕ → ℕ
unwrap_or none default = default
unwrap_or (some n) default = n

-- The success branch of `process_fec_set`. The set is removed with its flag `processed` on it.
unfoldable pub finish :
    {ShredId Entry : Type 0}
    → ShredProcessor ShredId Entry
    → ℕ × ℕ
    → ℕ
    → List Entry
    → ShredProcessor ShredId Entry
finish self key shred_count entries = record self {
  fec_set_success = (self.fec_set_success + 1) % u128_mod;
  total_processed_data = (self.total_processed_data + shred_count) % u128_mod;
  fec_sets = remove key self.fec_sets;
  sent = self.sent ++ (record { entries = entries; slot = key.0 } ∷ []);
}

module _ {Shred ShredId Entry : Type 0} (l : Ledger Shred ShredId) (host : Host Entry) where
  -- `filter_map(|raw| Shred::new_from_serialized_shred(raw).ok())`
  unfoldable pub parse_all : List (List ℕ) → Outcome ShredError (List Shred)
  parse_all [] = ok []
  parse_all (raw ∷ raws) =
      let rest = parse_all raws in
      elim (l.new_from_serialized_shred raw) [
        | ok shred ↦ (do shreds ← rest; ok (shred ∷ shreds))
        | err e ↦ rest
        | panicked ↦ panicked
      ]

  -- `if data_shreds.len() < expected_data_shreds { .. }`: the recovered data shreds are appended, and
  -- a recovery that fails is logged.
  unfoldable pub add_recovered : FecSet → List Shred → Outcome ShredError (List Shred)
  add_recovered fec_set data_shreds =
      if ltb (length data_shreds) (unwrap_or fec_set.num_expected_data 1)
      then (do
        coding_shreds ← parse_all (host.values fec_set.coding_shreds)
        elim (l.try_recovery (data_shreds ++ coding_shreds)) [
          | ok recovered ↦ ok (data_shreds ++ select l.is_data recovered)
          | err e ↦ ok data_shreds
          | panicked ↦ panicked
        ])
      else ok data_shreds

  -- The data shreds of a set, with what was recovered, sorted by index.
  unfoldable pub gather : FecSet → Outcome ShredError (List Shred)
  gather fec_set = do
    data_shreds ← parse_all (host.values fec_set.data_shreds)
    all_shreds ← add_recovered fec_set data_shreds
    ok (sort_by_key l.index all_shreds)

  -- What the sorted data shreds hold: the last steps of `process_fec_set`.
  unfoldable pub decode : List Shred → Outcome EntriesError (List Entry)
  decode shreds = elim (deshred l shreds) [
    | ok bytes ↦ deserialize_entries host.read_entry host.tracing bytes
    | err e ↦ panicked
    | panicked ↦ panicked
  ]

  -- From `if data_shreds.is_empty()` on. The order of sorting and this test does not matter.
  unfoldable pub conclude :
      ShredProcessor ShredId Entry
      → ℕ × ℕ
      → List Shred
      → Outcome ShredError (ShredProcessor ShredId Entry)
  conclude self key shreds = if is_empty shreds then ok self else elim (decode shreds) [
    | ok entries ↦ ok (finish self key (length shreds) entries)
    | err e ↦ ok (record self { fec_set_failure = (self.fec_set_failure + 1) % u128_mod })
    | panicked ↦ panicked
  ]

  unfoldable pub process_fec_set :
      ShredProcessor ShredId Entry → ℕ × ℕ → Outcome ShredError (ShredProcessor ShredId Entry)
  process_fec_set self key = elim (lookup key self.fec_sets) [
    | none ↦ ok self
    | some fec_set ↦
        if fec_set.processed
        then ok self
        else (do shreds ← gather fec_set; conclude self key shreds)
  ]
