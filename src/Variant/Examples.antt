-- ===== src/Variant/Examples.antt =====
-- Concrete bytes, and the theorems at concrete variants.
use shreds.Variant.{merkle_data, merkle_code, to_u8, try_from}
use shreds.Base.{true, false, panicked, ℕ, ◌<◌, ◌≡◌, refl, ok, arith}
use shreds.Sample.{type_bytes}
use shreds.Variant.RoundTrip.{try_from-to_u8}

try_from-to_u8_example :
    (b : ℕ) × (to_u8 (merkle_code 9 true true) ≡ ok b)
    × (b < 256)
    × (try_from type_bytes b ≡ ok (merkle_code 9 true true))
try_from-to_u8_example =
    try_from-to_u8 type_bytes refl refl (merkle_code 9 true true) (omega arith, λ e. refl)

resigned_unchained : to_u8 (merkle_data 6 false true) ≡ panicked
unfolding to_u8
resigned_unchained = refl
