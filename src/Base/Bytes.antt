-- ===== src/Base/Bytes.antt =====
-- Byte slices as lists of numbers: sub-slices that panic, and little-endian words.
use Prim.Native.Nat.{ℕ, zero, suc, ◌+◌, ◌-◌, ◌*◌, ◌/◌, ◌%◌, ◌^◌, ◌≤◌, ◌<◌}
use Prim.Native.Nat.pow
use mathlib.Core.Path.{◌≡◌, refl, ap}
use mathlib.Core.Bool.{◌&&◌}
use mathlib.Core.List.{List, [], ◌∷◌}
use native.Mathlib.Omega.{arith}
use shreds.Base.Tests.{leb, le→leb, if◌then◌else◌}
use shreds.Base.Lists.{length, take, drop, All}
use shreds.Base.Fallible.{Outcome, ok, panicked}

abbrev pub IsByte : ℕ → Type 0
IsByte b = b < 256

-- `&bytes[from..to]`: it panics where the range does not fit.
unfoldable pub slice {κ} : {E : Type κ} → List ℕ → ℕ → ℕ → Outcome E (List ℕ)
slice bytes from to =
    if leb from to && leb to (length bytes)
    then ok (take (to - from) (drop from bytes))
    else panicked

-- `from_le_bytes`
unfoldable pub le_bytes : List ℕ → ℕ
le_bytes [] = 0
le_bytes (b ∷ bs) = b + 256 * le_bytes bs

-- `to_le_bytes` of a word of `k` bytes.
unfoldable pub to_le_bytes : ℕ → ℕ → List ℕ
to_le_bytes zero n = []
to_le_bytes (suc k) n = n % 256 ∷ to_le_bytes k (n / 256)

pub slice-eq_ok {κ} :
    {E : Type κ} (bytes : List ℕ) (from to : ℕ)
    → from ≤ to
    → to ≤ length bytes
    → slice {E = E} bytes from to ≡ ok (take (to - from) (drop from bytes))
unfolding slice
slice-eq_ok bytes from to h k = rw (le→leb from to h, le→leb to (length bytes) k)

pub length-to_le_bytes : (k n : ℕ) → length (to_le_bytes k n) ≡ k
unfolding to_le_bytes
length-to_le_bytes zero n = refl
length-to_le_bytes (suc k) n = ap suc (length-to_le_bytes k (n / 256))

pub to_le_bytes-IsByte : (k n : ℕ) → All IsByte (to_le_bytes k n)
unfolding to_le_bytes
to_le_bytes-IsByte zero n = tt
to_le_bytes-IsByte (suc k) n = (omega arith, to_le_bytes-IsByte k (n / 256))

pub le_bytes-to_le_bytes : (k n : ℕ) → n < 256 ^ k → le_bytes (to_le_bytes k n) ≡ n
unfolding le_bytes to_le_bytes
le_bytes-to_le_bytes zero n h = omega (arith, pow.zero 256)
le_bytes-to_le_bytes (suc k) n h =
    omega (arith, pow.suc 256 k, le_bytes-to_le_bytes k (n / 256) (omega (arith, pow.suc 256 k)))

pub le_bytes-lt : (bs : List ℕ) → All IsByte bs → le_bytes bs < 256 ^ length bs
unfolding le_bytes
le_bytes-lt [] h = omega (arith, pow.zero 256)
le_bytes-lt (b ∷ bs) h = omega (arith, pow.suc 256 (length bs), le_bytes-lt bs h.1)
