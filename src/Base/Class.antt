-- ===== src/Base/Class.antt =====
-- Types with a Boolean equality, as the keys of a `HashMap` or a `HashSet` are.
use Prim.Native.Nat.{ℕ}
use mathlib.Core.Path.{◌≡◌, refl}
use mathlib.Core.Logic.{◌↔◌}
use mathlib.Core.Bool.{Bool, true, false, ◌&&◌, ◌||◌}
use mathlib.Core.List.{List, [], ◌∷◌}
use native.Mathlib.Omega.{arith}
use Prim.Native.String.{String}
use text.Mathlib.Text.{◌==◌ as str_eq}
use text.Mathlib.TextEquality.{eq_iff}
use shreds.Base.Tests.{nat_beq, nat_beq_iff}

-- What the `Eq` of a key promises: a test that answers `true` on equal keys alone.
pub record Eq {ℓ} (Key : Type ℓ) : Type ℓ where
  pub beq : Key → Key → Bool
  pub beq_iff : (j k : Key) → (beq j k ≡ true) ↔ (j ≡ k)

-- A set's key is a pair of numbers, compared one by one.
abbrev pub pair_beq : ℕ × ℕ → ℕ × ℕ → Bool
pair_beq j k = nat_beq j.0 k.0 && nat_beq j.1 k.1

pub pair_beq_iff : (j k : ℕ × ℕ) → (pair_beq j k ≡ true) ↔ (j ≡ k)
pair_beq_iff j k = ground arith

instance abbrev pub pair_eq : Eq (ℕ × ℕ)
pair_eq = record { beq = pair_beq; beq_iff = pair_beq_iff }

instance abbrev pub nat_eq : Eq ℕ
nat_eq = record { beq = nat_beq; beq_iff = nat_beq_iff }

instance abbrev pub string_eq : Eq String
string_eq = record { beq = str_eq; beq_iff = eq_iff }

infix 50 ◌==◌
-- `==` on any such type.
abbrev pub ◌==◌ {ℓ} : {Key : Type ℓ} ⦃eq : Eq Key⦄ → Key → Key → Bool
◌==◌ ⦃eq⦄ j k = eq.beq j k

module _ {ℓ} {Key : Type ℓ} ⦃eq : Eq Key⦄ where
  pub ==_refl : (k : Key) → (k == k) ≡ true
  ==_refl k = (eq.beq_iff k k).1 refl

  -- `HashSet::contains`, the elements tested from the last one inserted on.
  abbrev pub contains : List Key → Key → Bool
  contains [] k = false
  contains (j ∷ js) k = k == j || contains js k
