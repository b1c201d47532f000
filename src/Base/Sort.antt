-- ===== src/Base/Sort.antt =====
-- `sort_by_key`, a stable sort by a number, as insertion sort; and its laws.
pub mod Order
use Prim.Native.Nat.{ℕ, zero, suc, ◌+◌, ◌≤◌, ◌<◌}
use mathlib.Core.Path.{◌≡◌, refl, ap, sym, ◌∙◌}
use mathlib.Core.Bool.{Bool, true, false, ◌&&◌}
use mathlib.Core.List.{List, [], ◌∷◌, ◌++◌, map, Perm}
use mathlib.Core.List.Perm
use mathlib.Core.Logic.{inl, inr}
use native.Mathlib.Omega.{arith}
use mathlib.Core.Option.{Option, none, some}
use shreds.Base.Tests.{leb, nat_beq, if◌then◌else◌, Bool-cases}
use shreds.Base.Lists.{length, All}

module _ {A : Type 0} (key : A → ℕ) where
  -- An element goes before those that follow it in the input, where their keys are equal.
  unfoldable pub insert_sorted : A → List A → List A
  insert_sorted a [] = a ∷ []
  insert_sorted a (b ∷ bs) = if leb (key a) (key b) then a ∷ b ∷ bs else b ∷ insert_sorted a bs

  unfoldable pub sort_by_key : List A → List A
  unfolding insert_sorted
  sort_by_key [] = []
  sort_by_key (a ∷ ys) = insert_sorted a (sort_by_key ys)

  abbrev pub Above : ℕ → List A → Type 0
  Above n = All (λ a. n ≤ key a)

  abbrev pub IsSorted : List A → Type 0
  IsSorted [] = Unit {0}
  IsSorted (a ∷ ys) = Above (key a) ys × IsSorted ys

  -- Keys that rise strictly.
  abbrev pub IsStrict : List A → Type 0
  IsStrict [] = Unit {0}
  IsStrict (a ∷ ys) = All (λ b. key a < key b) ys × IsStrict ys

  pub Above-mono : (m n : ℕ) (ys : List A) → m ≤ n → Above n ys → Above m ys
  Above-mono m n [] h b = tt
  Above-mono m n (a ∷ ys) h b = (omega arith, Above-mono m n ys h b.1)

  insert_sorted-Above :
      (n : ℕ) (a : A) (ys : List A) → n ≤ key a → Above n ys → Above n (insert_sorted a ys)
  unfolding insert_sorted
  insert_sorted-Above n a [] h b = (h, tt)
  insert_sorted-Above n a (x ∷ xs) h b = ground (arith, insert_sorted-Above n a xs h b.1)

  insert_sorted-IsSorted : (a : A) (ys : List A) → IsSorted ys → IsSorted (insert_sorted a ys)
  unfolding insert_sorted
  insert_sorted-IsSorted a [] s = (tt, tt)
  insert_sorted-IsSorted a (x ∷ xs) s = ground (
    arith,
    insert_sorted-IsSorted a xs s.1,
    insert_sorted-Above (key x) a xs,
    Above-mono (key a) (key x) xs,
  )

  pub sort_by_key-IsSorted : (ys : List A) → IsSorted (sort_by_key ys)
  unfolding sort_by_key
  sort_by_key-IsSorted [] = tt
  sort_by_key-IsSorted (a ∷ ys) =
      insert_sorted-IsSorted a (sort_by_key ys) (sort_by_key-IsSorted ys)

  insert_sorted-perm : (a : A) (ys : List A) → Perm (insert_sorted a ys) (a ∷ ys)
  unfolding insert_sorted
  insert_sorted-perm a [] = Perm.refl _
  insert_sorted-perm a (x ∷ xs) = elim (Bool-cases (leb (key a) (key x))) [
    | inl first ↦ rw first (Perm.refl _)
    | inr later ↦ rw later (Perm.trans (Perm.cons x (insert_sorted-perm a xs)) (Perm.swap a x xs))
  ]

  pub sort_by_key-perm : (ys : List A) → Perm (sort_by_key ys) ys
  unfolding sort_by_key
  sort_by_key-perm [] = Perm.refl _
  sort_by_key-perm (a ∷ ys) =
      Perm.trans (insert_sorted-perm a (sort_by_key ys)) (Perm.cons a (sort_by_key-perm ys))

  -- The first element with a key.
  abbrev pub find_key : ℕ → List A → Option A
  find_key k [] = none
  find_key k (y ∷ ys) = if nat_beq (key y) k then some y else find_key k ys

  abbrev pub DistinctKeys : List A → Type 0
  DistinctKeys [] = Unit {0}
  DistinctKeys (y ∷ ys) = (find_key (key y) ys ≡ none) × DistinctKeys ys

  -- The sort is stable: elements with one key stay in order, so the first of them stays first.
  find_key-insert_sorted :
      (k : ℕ) (a : A) (ys : List A)
      → find_key k (insert_sorted a ys) ≡ (if nat_beq (key a) k then some a else find_key k ys)
  unfolding insert_sorted
  find_key-insert_sorted k a [] = refl
  find_key-insert_sorted k a (y ∷ ys) = ground (arith, find_key-insert_sorted k a ys)

  pub find_key-sort_by_key : (k : ℕ) (ys : List A) → find_key k (sort_by_key ys) ≡ find_key k ys
  unfolding sort_by_key
  find_key-sort_by_key k [] = refl
  find_key-sort_by_key k (y ∷ ys) =
      ground (arith, find_key-insert_sorted k y (sort_by_key ys), find_key-sort_by_key k ys)

  insert_sorted-IsStrict_above :
      (n : ℕ) (a : A) (ys : List A)
      → n < key a
      → All (λ b. n < key b) ys
      → All (λ b. n < key b) (insert_sorted a ys)
  insert_sorted-IsStrict_above n a ys h b = insert_sorted-Above (suc n) a ys h b

  IsStrict-from :
      (n : ℕ) (a : A) (ys : List A) → n < key a → IsStrict (a ∷ ys) → All (λ b. n < key b) (a ∷ ys)
  IsStrict-from n a ys h s = (h, Above-mono (suc n) (suc (key a)) ys (omega arith) s.0)

  insert_sorted-IsStrict :
      (a : A) (ys : List A)
      → find_key (key a) ys ≡ none
      → IsStrict ys
      → IsStrict (insert_sorted a ys)
  unfolding insert_sorted
  insert_sorted-IsStrict a [] h s = (tt, tt)
  insert_sorted-IsStrict a (y ∷ ys) h s = ground (
    arith,
    insert_sorted-IsStrict a ys,
    insert_sorted-IsStrict_above (key y) a ys,
    IsStrict-from (key a) y ys,
  )

  -- Distinct keys rise strictly once they are sorted.
  pub sort_by_key-IsStrict : (ys : List A) → DistinctKeys ys → IsStrict (sort_by_key ys)
  unfolding sort_by_key
  sort_by_key-IsStrict [] d = tt
  sort_by_key-IsStrict (y ∷ ys) d =
      insert_sorted-IsStrict y (sort_by_key ys) (find_key-sort_by_key (key y) ys ∙ d.0)
        (sort_by_key-IsStrict ys d.1)
