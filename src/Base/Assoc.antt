-- ===== src/Base/Assoc.antt =====
-- A `HashMap` as an association list in the order of insertion. `insert` of a key that is there
-- replaces its value in place, as `HashMap::insert` and a write through `get_mut` do.
use Prim.Native.Nat.{suc}
use mathlib.Core.Path.{◌≡◌, refl, subst}
use mathlib.Core.Logic.{inl, inr}
use mathlib.Core.Option.{Option, none, some}
use mathlib.Core.List.{List, [], ◌∷◌}
use native.Mathlib.Omega.{arith}
use shreds.Base.Tests.{Bool-cases, if◌then◌else◌}
use shreds.Base.Lists.{length, All}
use shreds.Base.Class.{Eq, ◌==◌, ==_refl}

module _ {ℓ κ} {K : Type ℓ} {V : Type κ} ⦃e : Eq K⦄ where
  unfoldable pub lookup : K → List (K × V) → Option V
  lookup key [] = none
  lookup key ((j, value) ∷ entries) = if j == key then some value else lookup key entries

  unfoldable pub insert : K → V → List (K × V) → List (K × V)
  insert key value [] = (key, value) ∷ []
  insert key value ((j, w) ∷ entries) =
      if j == key then (key, value) ∷ entries else (j, w) ∷ insert key value entries

  unfoldable pub remove : K → List (K × V) → List (K × V)
  remove key [] = []
  remove key ((j, w) ∷ entries) = if j == key then entries else (j, w) ∷ remove key entries

  abbrev pub keys : List (K × V) → List K
  keys [] = []
  keys ((key, value) ∷ entries) = key ∷ keys entries

  -- The keys are distinct.
  abbrev pub Distinct : List (K × V) → Type κ
  Distinct [] = Unit {κ}
  Distinct ((key, value) ∷ entries) = (lookup key entries ≡ none) × Distinct entries

  pub lookup-insert :
      (key j : K) (value : V) (entries : List (K × V))
      → lookup j (insert key value entries) ≡ (if key == j then some value else lookup j entries)
  unfolding lookup insert
  lookup-insert key j value [] = refl
  lookup-insert key j value ((i, w) ∷ entries) =
      ground
        (arith, e.beq_iff key j, e.beq_iff i key, e.beq_iff i j, lookup-insert key j value entries)

  pub lookup-insert_self :
      (key : K) (value : V) (entries : List (K × V))
      → lookup key (insert key value entries) ≡ some value
  lookup-insert_self key value entries = rw (lookup-insert key key value entries, ==_refl key)

  pub insert-Distinct :
      (key : K) (value : V) (entries : List (K × V))
      → Distinct entries
      → Distinct (insert key value entries)
  unfolding insert lookup
  insert-Distinct key value [] h = (refl, tt)
  insert-Distinct key value ((j, w) ∷ entries) h = ground (
    arith,
    insert-Distinct key value entries h.1,
    lookup-insert key j value entries,
    e.beq_iff j key,
    e.beq_iff key j,
  )

  pub remove_absent :
      (key : K) (entries : List (K × V)) → lookup key entries ≡ none → remove key entries ≡ entries
  unfolding lookup remove
  remove_absent key [] h = refl
  remove_absent key ((j, w) ∷ entries) h = ground (arith, remove_absent key entries)

  pub lookup-remove :
      (key j : K) (entries : List (K × V))
      → Distinct entries
      → lookup j (remove key entries) ≡ (if key == j then none else lookup j entries)
  unfolding lookup remove
  lookup-remove key j [] h = ground arith
  lookup-remove key j ((i, w) ∷ entries) h =
      ground
        (arith, e.beq_iff key j, e.beq_iff i key, e.beq_iff i j, lookup-remove key j entries h.1)

  pub remove-Distinct :
      (key : K) (entries : List (K × V)) → Distinct entries → Distinct (remove key entries)
  unfolding lookup remove
  remove-Distinct key [] h = tt
  remove-Distinct key ((j, w) ∷ entries) h =
      ground
        (arith, remove-Distinct key entries h.1, lookup-remove key j entries h.1, e.beq_iff key j)

  pub length-insert :
      (key : K) (value : V) (entries : List (K × V))
      → length (insert key value entries)
        ≡ (elim (lookup key entries) [ none ↦ suc (length entries) | some w ↦ length entries ])
  unfolding lookup insert
  length-insert key value [] = refl
  length-insert key value ((j, w) ∷ entries) = ground (arith, length-insert key value entries)

  pub All-insert {μ} :
      (P : K × V → Type μ) (key : K) (value : V) (entries : List (K × V))
      → P (key, value)
      → All P entries
      → All P (insert key value entries)
  unfolding insert
  All-insert P key value [] h a = (h, tt)
  All-insert P key value ((j, w) ∷ entries) h a = elim (Bool-cases (j == key)) [
    | inl same ↦ rw same (h, a.1)
    | inr other ↦ rw other (a.0, All-insert P key value entries h a.1)
  ]

  pub All-remove {μ} :
      (P : K × V → Type μ) (key : K) (entries : List (K × V))
      → All P entries
      → All P (remove key entries)
  unfolding remove
  All-remove P key [] a = tt
  All-remove P key ((j, w) ∷ entries) a = elim (Bool-cases (j == key)) [
    | inl same ↦ rw same a.1
    | inr other ↦ rw other (a.0, All-remove P key entries a.1)
  ]

  pub All-lookup {μ} :
      (P : K × V → Type μ) (key : K) (entries : List (K × V)) (value : V)
      → All P entries
      → lookup key entries ≡ some value
      → P (key, value)
  unfolding lookup
  All-lookup P key [] value a h = cc
  All-lookup P key ((j, w) ∷ entries) value a h = elim (Bool-cases (j == key)) [
    | inl same ↦ subst P (ground (arith, e.beq_iff j key)) a.0
    | inr other ↦ All-lookup P key entries value a.1 (ground arith)
  ]
