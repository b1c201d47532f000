-- ===== src/Shred/Sets/Preprocess.antt =====
-- `preprocess_shreds`: which data shreds are kept, and in which order.
use shreds.Base.{
  ℕ, ◌≡◌, refl, ◌∙◌, not, ◌&&◌, nat_eq, contains, if◌then◌else◌, none, List, [], ◌∷◌, select, arith,
}
use shreds.Base.Sort.{find_key, find_key-sort_by_key, sort_by_key-IsStrict, DistinctKeys, IsStrict}
use shreds.Ledger.{Ledger}
use shreds.Shred.Sets.{split_shreds, retain_unseen, preprocess_shreds}

module _ {Shred ShredId : Type 0} (l : Ledger Shred ShredId) where
  -- The shreds that are data, and the others that are coding shreds, in their order.
  abbrev pub data_of : List Shred → List Shred
  data_of = select l.is_data

  abbrev pub code_of : List Shred → List Shred
  code_of = select (λ shred. not (l.is_data shred) && l.is_code shred)

  split_shreds_lem :
      (shreds : List Shred) → split_shreds l shreds ≡ (data_of shreds, code_of shreds)
  unfolding split_shreds
  split_shreds_lem [] = refl
  split_shreds_lem (shred ∷ shreds) = ground (arith, split_shreds_lem shreds)

  -- Of each index that was not seen, the first shred is kept.
  find_key-retain_unseen :
      (i : ℕ) (seen : List ℕ) (shreds : List Shred)
      → find_key l.index i (retain_unseen l seen shreds)
        ≡ (if contains seen i then none else find_key l.index i shreds)
  unfolding retain_unseen
  find_key-retain_unseen i seen [] = ground arith
  find_key-retain_unseen i seen (shred ∷ shreds) = ground (
    arith,
    find_key-retain_unseen i seen shreds,
    find_key-retain_unseen i (l.index shred ∷ seen) shreds,
  )

  retain_unseen-DistinctKeys :
      (seen : List ℕ) (shreds : List Shred) → DistinctKeys l.index (retain_unseen l seen shreds)
  unfolding retain_unseen
  retain_unseen-DistinctKeys seen [] = tt
  retain_unseen-DistinctKeys seen (shred ∷ shreds) = ground (
    arith,
    retain_unseen-DistinctKeys seen shreds,
    retain_unseen-DistinctKeys (l.index shred ∷ seen) shreds,
    find_key-retain_unseen (l.index shred) (l.index shred ∷ seen) shreds,
  )

  -- The indices of the data shreds that come out rise strictly; under each index stands the first
  -- data shred that had it, and none under an index that no data shred had; and the coding shreds
  -- are those of the input, in their order.
  pub preprocess_shreds_lem :
      (shreds : List Shred)
      → IsStrict l.index (preprocess_shreds l shreds).0
        × ((i : ℕ)
            → find_key l.index i (preprocess_shreds l shreds).0
              ≡ find_key l.index i (data_of shreds))
        × ((preprocess_shreds l shreds).1 ≡ code_of shreds)
  unfolding preprocess_shreds
  preprocess_shreds_lem shreds = rw (split_shreds_lem shreds) (
    sort_by_key-IsStrict l.index (retain_unseen l [] (data_of shreds))
        (retain_unseen-DistinctKeys [] (data_of shreds)),
    (λ i.
        find_key-sort_by_key l.index i (retain_unseen l [] (data_of shreds))
        ∙ find_key-retain_unseen i [] (data_of shreds)),
    refl,
  )
