-- ===== src/Shred/Header/Expected.antt =====
-- The table of coding shreds that belong to a number of data shreds.
use shreds.Base.{ℕ, ◌≤◌, ◌<◌, ◌≡◌, ◌⊎◌, arith}
use shreds.Shred.Header.{get_expected_coding_shreds}

-- A batch of 1 to 67 data shreds expects at least as many coding shreds, and at most 67; any other
-- number is invalid and expects none.
pub get_expected_coding_shreds_bounds :
    (n : ℕ)
    → ((1 ≤ n)
        × (n ≤ 67)
        × (n ≤ get_expected_coding_shreds n)
        × (17 ≤ get_expected_coding_shreds n)
        × (get_expected_coding_shreds n ≤ 67))
      ⊎ (((n ≡ 0) ⊎ (67 < n)) × (get_expected_coding_shreds n ≡ 0))
unfolding get_expected_coding_shreds
get_expected_coding_shreds_bounds n = ground arith
