-- ===== src/Base/Sort/Order.antt =====
-- Sorting by distinct keys forgets the order of the input.
use mathlib.Core.Path.{◌≡◌, refl, ap, ap₂, ◌∙◌, subst}
use mathlib.Core.Logic.{◌≢◌}
use mathlib.Core.Option.{none}
use mathlib.Core.List.{List, [], ◌∷◌, Permᴰ}
use Prim.Native.Nat.{ℕ, ◌<◌}
use native.Mathlib.Omega.{arith}
use shreds.Base.Lists.{All}
use shreds.Base.Sort.{insert_sorted, sort_by_key, find_key, DistinctKeys, IsStrict}

module _ {A : Type 0} (key : A → ℕ) where
  find_key-perm :
      {xs ys : List A} (k : ℕ) → Permᴰ xs ys → find_key key k xs ≡ none → find_key key k ys ≡ none
  find_key-perm k Permᴰ.nil h = h
  find_key-perm k (Permᴰ.cons e p) h = ground (arith, find_key-perm k p, ap key e)
  find_key-perm k (Permᴰ.swap e f) h = ground (arith, ap key e, ap key f)
  find_key-perm k (Permᴰ.trans p q) h = find_key-perm k q (find_key-perm k p h)

  pub DistinctKeys-perm : {xs ys : List A} → Permᴰ xs ys → DistinctKeys key xs → DistinctKeys key ys
  DistinctKeys-perm Permᴰ.nil d = d
  DistinctKeys-perm (Permᴰ.cons {a = a} e p) d =
      ground (arith, find_key-perm (key a) p d.0, DistinctKeys-perm p d.1, ap key e)
  DistinctKeys-perm (Permᴰ.swap e f) d = ground (arith, ap key e, ap key f)
  DistinctKeys-perm (Permᴰ.trans p q) d = DistinctKeys-perm q (DistinctKeys-perm p d)

  insert_sorted_comm :
      (a b : A) (ys : List A)
      → key a ≢ key b
      → insert_sorted key a (insert_sorted key b ys) ≡ insert_sorted key b (insert_sorted key a ys)
  unfolding insert_sorted
  insert_sorted_comm a b [] h = ground arith
  insert_sorted_comm a b (y ∷ ys) h = ground (arith, insert_sorted_comm a b ys h)

  -- Lists of distinct keys that are permutations of one another sort to one list.
  pub sort_by_key-perm_eq :
      {xs ys : List A} → Permᴰ xs ys → DistinctKeys key xs → sort_by_key key xs ≡ sort_by_key key ys
  unfolding sort_by_key
  sort_by_key-perm_eq Permᴰ.nil d = refl
  sort_by_key-perm_eq (Permᴰ.cons e p) d = ap₂ (insert_sorted key) e (sort_by_key-perm_eq p d.1)
  sort_by_key-perm_eq (Permᴰ.swap {a = a} {b = b} {l = l} e f) d =
      insert_sorted_comm a b (sort_by_key key l) (ground arith)
      ∙ ap₂ (λ x y. insert_sorted key x (insert_sorted key y (sort_by_key key l))) f e
  sort_by_key-perm_eq (Permᴰ.trans p q) d =
      sort_by_key-perm_eq p d ∙ sort_by_key-perm_eq q (DistinctKeys-perm p d)

  find_key_above : (k : ℕ) (ys : List A) → All (λ y. k < key y) ys → find_key key k ys ≡ none
  find_key_above k [] h = refl
  find_key_above k (y ∷ ys) h = ground (arith, find_key_above k ys h.1)

  pub IsStrict-DistinctKeys : (ys : List A) → IsStrict key ys → DistinctKeys key ys
  IsStrict-DistinctKeys [] h = tt
  IsStrict-DistinctKeys (y ∷ ys) h = (find_key_above (key y) ys h.0, IsStrict-DistinctKeys ys h.1)

  insert_sorted_above :
      (a : A) (ys : List A) → All (λ y. key a < key y) ys → insert_sorted key a ys ≡ a ∷ ys
  unfolding insert_sorted
  insert_sorted_above a [] h = refl
  insert_sorted_above a (y ∷ ys) h = ground (arith, h.0)

  -- A list in strict order is sorted.
  pub sort_by_key-IsStrict_eq : (ys : List A) → IsStrict key ys → sort_by_key key ys ≡ ys
  unfolding sort_by_key
  sort_by_key-IsStrict_eq [] h = refl
  sort_by_key-IsStrict_eq (y ∷ ys) h =
      ap (insert_sorted key y) (sort_by_key-IsStrict_eq ys h.1) ∙ insert_sorted_above y ys h.0

pub All-perm {κ} :
    {A : Type 0} (P : A → Type κ) {xs ys : List A} → Permᴰ xs ys → All P xs → All P ys
All-perm P Permᴰ.nil h = tt
All-perm P (Permᴰ.cons e p) h = (subst P e h.0, All-perm P p h.1)
All-perm P (Permᴰ.swap e f) h = (subst P f h.1.0, (subst P e h.0, h.1.1))
All-perm P (Permᴰ.trans p q) h = All-perm P q (All-perm P p h)
