-- ===== src/Base/Bits.antt =====
-- Facts about the bits of a byte, each a table of at most 256 entries checked by evaluation.
use Prim.Native.Nat.{ℕ, zero, suc, ◌*◌, ◌/◌, ◌%◌, ◌<◌, bit_and}
use mathlib.Core.Path.{◌≡◌, refl, subst, sym}
use mathlib.Core.Bool.{Bool, true, ◌&&◌}
use native.Mathlib.Omega.{arith}
use mathlib.Core.Logic.{inl, inr}
use shreds.Base.Tests.{nat_beq, nat_beq_iff, Bool-cases, and-true}

-- Two functions that give the same values below `n`.
unfoldable pub agree : (ℕ → ℕ) → (ℕ → ℕ) → ℕ → Bool
agree f g zero = true
agree f g (suc n) = agree f g n && nat_beq (f n) (g n)

pub agree_below : (f g : ℕ → ℕ) (n : ℕ) → agree f g n ≡ true → (x : ℕ) → x < n → f x ≡ g x
unfolding agree
agree_below f g zero h x lt = absurd (omega arith)
agree_below f g (suc n) h x lt = elim (Bool-cases (nat_beq x n)) [
  | inl last ↦
      subst (λ y. f y ≡ g y) (sym ((nat_beq_iff x n).0 last))
        ((nat_beq_iff (f n) (g n)).0 (and-true (agree f g n) (nat_beq (f n) (g n)) h).1)
  | inr before ↦
      agree_below f g n (and-true (agree f g n) (nat_beq (f n) (g n)) h).0 x (ground arith)
]

-- `b & 0x0F`, `b & 0xF0`, `b & 0x3F`, `b & 0x40` and `b & 0x80` of a byte.
pub low_nibble : (b : ℕ) → b < 256 → bit_and b 0x0f ≡ b % 16
unfolding agree
low_nibble = agree_below _ _ 256 refl

pub high_nibble : (b : ℕ) → b < 256 → bit_and b 0xf0 ≡ b / 16 * 16
unfolding agree
high_nibble = agree_below _ _ 256 refl

pub low_six_bits : (b : ℕ) → b < 256 → bit_and b 0x3f ≡ b % 64
unfolding agree
low_six_bits = agree_below _ _ 256 refl

pub bit_six : (b : ℕ) → b < 256 → bit_and b 0x40 ≡ b / 64 % 2 * 64
unfolding agree
bit_six = agree_below _ _ 256 refl

pub bit_seven : (b : ℕ) → b < 256 → bit_and b 0x80 ≡ b / 128 * 128
unfolding agree
bit_seven = agree_below _ _ 256 refl
