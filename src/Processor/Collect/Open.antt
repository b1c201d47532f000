-- ===== src/Processor/Collect/Open.antt =====
-- What holds of each FEC set in the map, and that adding a shred keeps it.
use shreds.Base.{
  ℕ, ◌≤◌, ◌≡◌, refl, sym, subst, false, ◌||◌, nat_eq, pair_eq, Option, none, some, List, length,
  All, ok, Outcome-cases, Bool-cases, arith, inl, inr,
}
use shreds.Base.Assoc.{
  lookup, Distinct, insert as insert_key, insert-Distinct, All-insert, All-lookup,
}
use shreds.Ledger.{Ledger}
use shreds.Shred.Header.{
  CodingShredHeader, is_shred_data, get_last_in_slot, get_coding_shred_header,
}
use shreds.Processor.State.{FecSet, ShredProcessor, Host, new_fec_set}
use shreds.Processor.Collect.{
  is_none, or_new, with_counts, add_data, learn_counts, add_coding, absorb, min_shred_length,
}

-- A set in the map is never marked as processed, knows both counts or neither, and holds shreds of
-- full length under distinct indices.
pub record IsOpen (fec_set : FecSet) : Type 0 where
  pub unprocessed : fec_set.processed ≡ false
  pub counts : is_none fec_set.num_expected_data ≡ is_none fec_set.num_expected_coding
  pub data_distinct : Distinct fec_set.data_shreds
  pub coding_distinct : Distinct fec_set.coding_shreds
  pub data_long : All (λ e. min_shred_length ≤ length e.1) fec_set.data_shreds
  pub coding_long : All (λ e. min_shred_length ≤ length e.1) fec_set.coding_shreds

pub new_fec_set-IsOpen : IsOpen new_fec_set
new_fec_set-IsOpen = record {
  unprocessed = refl;
  counts = refl;
  data_distinct = tt;
  coding_distinct = tt;
  data_long = tt;
  coding_long = tt;
}

with_counts-IsOpen :
    (fec_set : FecSet) (header : CodingShredHeader)
    → IsOpen fec_set
    → IsOpen (with_counts fec_set header)
with_counts-IsOpen fec_set header v = record {
  unprocessed = v.unprocessed;
  counts = refl;
  data_distinct = v.data_distinct;
  coding_distinct = v.coding_distinct;
  data_long = v.data_long;
  coding_long = v.coding_long;
}

module _ {Shred ShredId : Type 0} (l : Ledger Shred ShredId) where
  add_data-IsOpen :
      (fec_set : FecSet) (index : ℕ) (raw : List ℕ) (next : FecSet)
      → IsOpen fec_set
      → min_shred_length ≤ length raw
      → add_data l fec_set index raw ≡ ok next
      → IsOpen next
  unfolding add_data
  add_data-IsOpen fec_set index raw next v long h = elim (Outcome-cases (get_last_in_slot l raw)) [
    | inr (inl (e, p)) ↦ absurd (ground (arith, p))
    | inr (inr p) ↦ absurd (ground (arith, p))
    | inl (is_last, p) ↦ subst IsOpen (ground (arith, p)) (
        grown
          (record fec_set {
            data_shreds = insert_key index raw fec_set.data_shreds;
            is_last_in_slot = fec_set.is_last_in_slot || is_last;
          })
          refl)
  ]
    where
      grown :
          (fs : FecSet)
          → fs ≡ record fec_set {
            data_shreds = insert_key index raw fec_set.data_shreds;
            is_last_in_slot = fs.is_last_in_slot;
          }
          → IsOpen fs
      grown fs e = subst IsOpen (sym e) (record {
        unprocessed = v.unprocessed;
        counts = v.counts;
        data_distinct = insert-Distinct index raw fec_set.data_shreds v.data_distinct;
        coding_distinct = v.coding_distinct;
        data_long =
            All-insert (λ e. min_shred_length ≤ length e.1) index raw fec_set.data_shreds long
              v.data_long;
        coding_long = v.coding_long;
      })

  learn_counts-IsOpen :
      (fec_set : FecSet) (raw : List ℕ) (next : FecSet)
      → IsOpen fec_set
      → learn_counts l fec_set raw ≡ ok next
      → IsOpen next
  unfolding learn_counts
  learn_counts-IsOpen fec_set raw next v h =
      elim (Bool-cases (is_none fec_set.num_expected_data || is_none fec_set.num_expected_coding)) [
        | inr known ↦ subst IsOpen (ground arith) v
        | inl unknown ↦ elim (Outcome-cases (get_coding_shred_header l raw)) [
          | inl (header, p) ↦
              subst IsOpen {x = with_counts fec_set header} (ground (arith, p))
                (with_counts-IsOpen fec_set header v)
          | inr (inl (e, p)) ↦ subst IsOpen (ground (arith, p)) v
          | inr (inr p) ↦ absurd (ground (arith, p))
        ]
      ]

  add_coding-IsOpen :
      (fec_set : FecSet) (index : ℕ) (raw : List ℕ) (next : FecSet)
      → IsOpen fec_set
      → min_shred_length ≤ length raw
      → add_coding l fec_set index raw ≡ ok next
      → IsOpen next
  unfolding add_coding
  add_coding-IsOpen fec_set index raw next v long h =
      learn_counts-IsOpen
        (record fec_set { coding_shreds = insert_key index raw fec_set.coding_shreds }) raw next
        (record {
          unprocessed = v.unprocessed;
          counts = v.counts;
          data_distinct = v.data_distinct;
          coding_distinct = insert-Distinct index raw fec_set.coding_shreds v.coding_distinct;
          data_long = v.data_long;
          coding_long =
              All-insert (λ e. min_shred_length ≤ length e.1) index raw fec_set.coding_shreds long
                v.coding_long;
        })
        h

module _ {Shred ShredId Entry : Type 0} (l : Ledger Shred ShredId) (host : Host Entry) where
  or_new-IsOpen :
      (key : ℕ × ℕ) (m : List ((ℕ × ℕ) × FecSet)) (o : Option FecSet)
      → All (λ e. IsOpen e.1) m
      → lookup key m ≡ o
      → IsOpen (or_new o)
  or_new-IsOpen key m none a h = new_fec_set-IsOpen
  or_new-IsOpen key m (some fec_set) a h = All-lookup (λ e. IsOpen e.1) key m fec_set a h

  pub absorb-IsOpen :
      (self : ShredProcessor ShredId Entry) (key : ℕ × ℕ) (index : ℕ) (raw : List ℕ) (next : FecSet)
      → All (λ e. IsOpen e.1) self.fec_sets
      → min_shred_length ≤ length raw
      → absorb l host self key index raw ≡ ok next
      → IsOpen next
  unfolding absorb
  absorb-IsOpen self key index raw next a long h =
      let v = or_new-IsOpen key self.fec_sets (lookup key self.fec_sets) a refl in
      let fec_set = or_new (lookup key self.fec_sets) in
      elim (Bool-cases (is_shred_data l raw)) [
        | inl is_data ↦ add_data-IsOpen l fec_set index raw next v long (ground arith)
        | inr is_code ↦ add_coding-IsOpen l fec_set index raw next v long (ground arith)
      ]
