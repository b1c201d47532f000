-- ===== src/Processor/Collect.antt =====
-- src/shred_processor.rs: `insert` and `collect`.
pub mod Unique
pub mod Open
pub mod Invariant
pub mod Panics
pub mod Late
use shreds.Base.{
  ℕ, ◌+◌, ◌%◌, Bool, true, false, ◌||◌, ltb, if◌then◌else◌, ◌==◌, Eq, nat_eq, pair_eq, contains,
  Option, none, some, List, [], ◌∷◌, ◌++◌, length, Outcome, ok, err, panicked, ◌>>=◌,
}
use shreds.Base.Assoc.{lookup, insert as insert_key}
use shreds.Base.Words.{u128_mod}
use shreds.Ledger.{Ledger, Error}
use shreds.Shred.Header.{
  ShredError, CodingShredHeader, is_shred_data, get_shred_index, get_fec_set_index,
  get_last_in_slot, get_coding_shred_header,
}
use shreds.Processor.State.{
  EntriesWithMeta, FecSet, ShredProcessor, Host, RawShreds, new_fec_set, is_fec_set_complete,
}
use shreds.Processor.Process.{process_fec_set}

abbrev pub min_shred_length : ℕ
min_shred_length = 0x58

-- `Result::expect`
abbrev pub expect {ℓ κ} : {E : Type κ} {A : Type ℓ} → Outcome E A → Outcome E A
expect (ok a) = ok a
expect (err e) = panicked
expect panicked = panicked

abbrev pub is_none : Option ℕ → Bool
is_none none = true
is_none (some n) = false

-- `entry(key).or_insert_with(..)`
abbrev pub or_new : Option FecSet → FecSet
or_new none = new_fec_set
or_new (some fec_set) = fec_set

abbrev pub with_counts : FecSet → CodingShredHeader → FecSet
with_counts fec_set header = record fec_set {
  num_expected_data = some header.num_data_shreds;
  num_expected_coding = some header.num_coding_shreds;
}

module _ {Shred ShredId : Type 0} (l : Ledger Shred ShredId) where
  unfoldable pub add_data : FecSet → ℕ → List ℕ → Outcome ShredError FecSet
  add_data fec_set index raw = do
    is_last ← get_last_in_slot l raw
    ok (record fec_set {
      data_shreds = insert_key index raw fec_set.data_shreds;
      is_last_in_slot = fec_set.is_last_in_slot || is_last;
    })

  -- `if let Ok(CodingShredHeader { .. }) = get_coding_shred_header(&raw_shred)`
  unfoldable pub learn_counts : FecSet → List ℕ → Outcome ShredError FecSet
  learn_counts fec_set raw =
      if is_none fec_set.num_expected_data || is_none fec_set.num_expected_coding
      then elim (get_coding_shred_header l raw) [
        | ok header ↦ ok (with_counts fec_set header)
        | err e ↦ ok fec_set
        | panicked ↦ panicked
      ]
      else ok fec_set

  unfoldable pub add_coding : FecSet → ℕ → List ℕ → Outcome ShredError FecSet
  add_coding fec_set index raw =
      learn_counts (record fec_set { coding_shreds = insert_key index raw fec_set.coding_shreds })
        raw

-- The counters, and the set written back to the map.
unfoldable pub count_shred :
    {ShredId Entry : Type 0}
    → ShredProcessor ShredId Entry
    → Bool
    → ℕ × ℕ
    → FecSet
    → ShredProcessor ShredId Entry
count_shred self is_data key fec_set = record self {
  total_collected_data =
      if is_data then (self.total_collected_data + 1) % u128_mod else self.total_collected_data;
  total_collected_coding =
      if is_data then self.total_collected_coding else (self.total_collected_coding + 1) % u128_mod;
  fec_sets = insert_key key fec_set self.fec_sets;
}

module _ {Shred ShredId Entry : Type 0} (l : Ledger Shred ShredId) (host : Host Entry) where
  -- The set with the shred in it.
  unfoldable pub absorb :
      ShredProcessor ShredId Entry → ℕ × ℕ → ℕ → List ℕ → Outcome ShredError FecSet
  absorb self key index raw =
      let fec_set = or_new (lookup key self.fec_sets) in
      if is_shred_data l raw then add_data l fec_set index raw else add_coding l fec_set index raw

  unfoldable pub insert :
      ShredProcessor ShredId Entry → ℕ → List ℕ → Outcome ShredError (ShredProcessor ShredId Entry)
  insert self slot raw = do
    index ← expect (get_shred_index l raw)
    fec_set_index ← expect (get_fec_set_index l raw)
    fec_set ← absorb self (slot, fec_set_index) index raw
    let counted = count_shred self (is_shred_data l raw) (slot, fec_set_index) fec_set
    if is_fec_set_complete fec_set
        then process_fec_set l host counted (slot, fec_set_index)
        else ok counted

  unfoldable pub collect :
      ShredProcessor ShredId Entry → List ℕ → Outcome ShredError (ShredProcessor ShredId Entry)
  collect self raw =
      if ltb (length raw) min_shred_length then ok self else elim (l.get_shred_id raw) [
        | none ↦ ok self
        | some id ↦
            if contains ⦃eq = l.id_eq⦄ self.uniqueness id
            then ok self
            else insert (record self { uniqueness = id ∷ self.uniqueness }) (l.id_slot id) raw
      ]

  -- The packets of a loop that collects each in turn; a panic ends it.
  unfoldable pub collect_all :
      List (List ℕ)
      → ShredProcessor ShredId Entry
      → Outcome ShredError (ShredProcessor ShredId Entry)
  collect_all [] self = ok self
  collect_all (raw ∷ raws) self = do next ← collect self raw; collect_all raws next
