-- ===== src/Base/Fallible.antt =====
-- What a Rust function that may fail does: return, return an error, or panic.
use mathlib.Core.Path.{◌≡◌, refl, ap}
use mathlib.Core.Logic.{◌⊎◌, inl, inr}
use mathlib.Core.Bool.{Bool, true, false}
use shreds.Base.Tests.{if◌then◌else◌}
use mathlib.Core.Option.{Option, none, some}

pub data Outcome {ℓ κ} (E : Type κ) (A : Type ℓ) : Type (ℓ ⊔ κ) where
  ok : A → Outcome E A
  err : E → Outcome E A
  panicked : Outcome E A

infixl 5 ◌>>=◌ ◌>>◌
-- What follows a call: it runs on the value alone, and `?` and a panic end the function.
abbrev pub ◌>>=◌ {ℓ κ μ} :
    {E : Type κ} {A : Type ℓ} {B : Type μ} → Outcome E A → (A → Outcome E B) → Outcome E B
panicked >>= rest = panicked
err e >>= rest = err e
ok a >>= rest = rest a

-- `Option::expect` and an index out of range.
abbrev pub or_panic {ℓ κ} : {E : Type κ} {A : Type ℓ} → Option A → Outcome E A
or_panic none = panicked
or_panic (some a) = ok a

-- `if !condition { return Err(e) }`
abbrev pub guard {κ} : {E : Type κ} → Bool → E → Outcome E (Unit {0})
guard condition e = if condition then ok tt else err e

-- `matches!(r, Ok(_))`
abbrev pub is_ok {ℓ κ} : {E : Type κ} {A : Type ℓ} → Outcome E A → Bool
is_ok (ok a) = true
is_ok (err e) = false
is_ok panicked = false

abbrev pub ◌>>◌ {κ μ} : {E : Type κ} {B : Type μ} → Outcome E (Unit {0}) → Outcome E B → Outcome E B
check >> rest = check >>= λ _. rest

-- `Result::ok`; no value is left of a panic either, and no caller asks.
abbrev pub ok? {ℓ κ} : {E : Type κ} {A : Type ℓ} → Outcome E A → Option A
ok? (ok a) = some a
ok? (err e) = none
ok? panicked = none

-- A sequence that returns has a first call that returned, and a rest that did on its value.
pub >>=-eq-ok {ℓ κ μ} :
    {E : Type κ} {A : Type ℓ} {B : Type μ} (call : Outcome E A) (rest : A → Outcome E B)
    {result : B}
    → (call >>= rest) ≡ ok result
    → (value : A) × (call ≡ ok value) × (rest value ≡ ok result)
>>=-eq-ok panicked rest returns = cc
>>=-eq-ok (err e) rest returns = cc
>>=-eq-ok (ok value) rest returns = (value, refl, returns)

pub Outcome-cases {ℓ κ} :
    {E : Type κ} {A : Type ℓ} (r : Outcome E A)
    → ((a : A) × (r ≡ ok a)) ⊎ ((e : E) × (r ≡ err e)) ⊎ (r ≡ panicked)
Outcome-cases (ok a) = inl (a, refl)
Outcome-cases (err e) = inr (inl (e, refl))
Outcome-cases panicked = inr (inr refl)

-- Two sequences that agree on what their calls return agree.
pub >>=-congr {ℓ κ μ} :
    {E : Type κ} {A : Type ℓ} {B : Type μ} (call : Outcome E A) (f g : A → Outcome E B)
    → ((value : A) → f value ≡ g value)
    → (call >>= f) ≡ (call >>= g)
>>=-congr panicked f g same = refl
>>=-congr (err e) f g same = refl
>>=-congr (ok value) f g same = same value

pub >>=_assoc {ℓ κ μ ν} :
    {E : Type κ} {A : Type ℓ} {B : Type μ} {C : Type ν} (call : Outcome E A) (f : A → Outcome E B)
    (g : B → Outcome E C)
    → (call >>= f >>= g) ≡ (call >>= λ value. (f value >>= g))
>>=_assoc panicked f g = refl
>>=_assoc (err e) f g = refl
>>=_assoc (ok value) f g = refl

pub >>=-ok {ℓ κ} :
    {E : Type κ} {A : Type ℓ} (call : Outcome E A) → (call >>= λ value. ok value) ≡ call
>>=-ok panicked = refl
>>=-ok (err e) = refl
>>=-ok (ok value) = refl

abbrev value_or {ℓ κ} : {E : Type κ} {A : Type ℓ} → A → Outcome E A → A
value_or a panicked = a
value_or a (err e) = a
value_or a (ok b) = b

pub ok-inj {ℓ κ} : {E : Type κ} {A : Type ℓ} {a b : A} → ◌≡◌ {A = Outcome E A} (ok a) (ok b) → a ≡ b
ok-inj {a = a} e = ap (value_or a) e

pub or_panic-eq-ok {ℓ κ} :
    {E : Type κ} {A : Type ℓ} {o : Option A} {a : A}
    → ◌≡◌ {A = Outcome E A} (or_panic o) (ok a)
    → o ≡ some a
or_panic-eq-ok {o = none} e = cc
or_panic-eq-ok {E} {o = some b} e = ap some (ok-inj {E = E} e)
