-- ===== src/Shred/Sets.antt =====
-- src/shred.rs: sorting shreds into slots, and into data and coding shreds.
pub mod Preprocess
use shreds.Base.{
  ℕ, ◌+◌, Bool, true, false, ◌||◌, ◌==◌, nat_eq, contains, if◌then◌else◌, Option, none, some, List,
  [], ◌∷◌, ◌++◌, length, Outcome, ok, err, panicked, ◌>>=◌, ok?, or_panic,
}
use shreds.Base.Assoc.{lookup, insert}
use shreds.Base.Sort.{sort_by_key}
use shreds.Ledger.{Ledger, Error}

abbrev pub or_default : Option (List ℕ) → List ℕ
or_default none = []
or_default (some xs) = xs

-- `*sizes.entry(len).or_insert(0) += 1` over all raw shreds.
unfoldable pub debug_shred_sizes : List (List ℕ) → List (ℕ × ℕ) → List (ℕ × ℕ)
unfolding insert lookup
debug_shred_sizes [] sizes = sizes
debug_shred_sizes (raw ∷ raws) sizes = debug_shred_sizes raws (
    insert (length raw) (elim (lookup (length raw) sizes) [ none ↦ 1 | some count ↦ count + 1 ])
      sizes)

module _ {Shred ShredId : Type 0} (l : Ledger Shred ShredId) where
  -- `entry(slot).or_default().push(shred)`
  unfoldable pub push_shred : Shred → List (ℕ × List Shred) → List (ℕ × List Shred)
  unfolding insert lookup
  push_shred shred m =
      insert (l.slot shred)
        (elim (lookup (l.slot shred) m) [
          | none ↦ shred ∷ []
          | some shreds ↦ shreds ++ (shred ∷ [])
        ])
        m

  -- The loop of `load_shreds`, from the map so far.
  unfoldable pub load_loop :
      List (List ℕ) → List (ℕ × List Shred) → Outcome Error (List (ℕ × List Shred))
  unfolding push_shred
  load_loop [] m = ok m
  load_loop (raw ∷ raws) m = elim (length raw == 29 || length raw == 28 || length raw == 21) [
    | true ↦ load_loop raws m
    | false ↦ elim (l.new_from_serialized_shred raw) [
      | ok shred ↦ load_loop raws (push_shred shred m)
      | err e ↦ panicked
      | panicked ↦ panicked
    ]
  ]

  unfoldable pub load_shreds : List (List ℕ) → Outcome Error (List (ℕ × List Shred))
  unfolding load_loop
  load_shreds raws = load_loop raws []

  -- The first loop of `preprocess_shreds`: data shreds, and the coding shreds among the others.
  unfoldable pub split_shreds : List Shred → List Shred × List Shred
  split_shreds [] = ([], [])
  split_shreds (shred ∷ shreds) =
      let (data_shreds, code_shreds) = split_shreds shreds in
      if l.is_data shred
      then (shred ∷ data_shreds, code_shreds)
      else if l.is_code shred
      then (data_shreds, shred ∷ code_shreds)
      else (data_shreds, code_shreds)

  -- `retain(|shred| seen.insert(shred.index()))`
  unfoldable pub retain_unseen : List ℕ → List Shred → List Shred
  retain_unseen seen [] = []
  retain_unseen seen (shred ∷ shreds) =
      let old = contains seen (l.index shred) in
      let rest = retain_unseen (if old then seen else l.index shred ∷ seen) shreds in
      if old then rest else shred ∷ rest

  unfoldable pub preprocess_shreds : List Shred → List Shred × List Shred
  unfolding split_shreds retain_unseen sort_by_key
  preprocess_shreds shreds =
      let (data_shreds, code_shreds) = split_shreds shreds in
      (sort_by_key l.index (retain_unseen [] data_shreds), code_shreds)
