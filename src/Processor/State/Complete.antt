-- ===== src/Processor/State/Complete.antt =====
-- When a set counts as complete.
use shreds.Base.{ℕ, ◌≤◌, ◌≡◌, ◌↔◌, true, nat_eq, some, length, arith}
use shreds.Processor.State.{FecSet, is_fec_set_complete}

-- A set that holds no more shreds of either kind than a coding shred announced is complete exactly if
-- all its data shreds are there: the other test, on the total, adds nothing.
pub is_fec_set_complete_iff :
    (fec_set : FecSet) (expected_data expected_coding : ℕ)
    → fec_set.num_expected_data ≡ some expected_data
    → fec_set.num_expected_coding ≡ some expected_coding
    → length fec_set.data_shreds ≤ expected_data
    → length fec_set.coding_shreds ≤ expected_coding
    → (is_fec_set_complete fec_set ≡ true) ↔ (length fec_set.data_shreds ≡ expected_data)
unfolding is_fec_set_complete
is_fec_set_complete_iff fec_set expected_data expected_coding p q h k = rw (p, q) (ground arith)
