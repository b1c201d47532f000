-- ===== src/Shred/Repair.antt =====
-- src/shred.rs: `validate_and_try_repair`.
pub mod Missing
pub mod Validate
use shreds.Base.{
  ℕ, zero, suc, ◌+◌, ◌-◌, ◌%◌, Bool, true, false, not, ◌&&◌, ◌||◌, ◌==◌, nat_eq, leb, if◌then◌else◌,
  Option, none, some, List, [], ◌∷◌, ◌++◌, length, Outcome, ok, err, panicked, or_panic, ◌>>=◌,
  ◌>>◌, guard,
}
use shreds.Base.Words.{u32_mod}
use shreds.Ledger.{Ledger, Error}
use shreds.Shred.Header.{
  ShredError, no_data_shreds, no_code_shreds, too_many_missing, recovery_failed, not_repaired,
}

abbrev pub first {ℓ} : {A : Type ℓ} → List A → Option A
first [] = none
first (x ∷ xs) = some x

abbrev pub last {ℓ} : {A : Type ℓ} → List A → Option A
last [] = none
last (x ∷ []) = some x
last (x ∷ y ∷ xs) = last (y ∷ xs)

abbrev pub is_empty {ℓ} : {A : Type ℓ} → List A → Bool
is_empty [] = true
is_empty (x ∷ xs) = false

-- The rounds of `while expected < index`: the numbers from `expected` on.
unfoldable pub missing_before : ℕ → ℕ → List ℕ
missing_before zero expected = []
missing_before (suc n) expected = expected ∷ missing_before n (expected + 1)

module _ {Shred ShredId : Type 0} (l : Ledger Shred ShredId) where
  -- `iter().zip(index..).all(|(s, i)| s.index() == i)`
  unfoldable pub aligned : ℕ → List Shred → Bool
  aligned i [] = true
  aligned i (shred ∷ shreds) = l.index shred == i && aligned ((i + 1) % u32_mod) shreds

  abbrev pub is_data_complete : Shred → Bool
  is_data_complete shred = l.data_complete shred || l.last_in_slot shred

  -- The loop that collects the missing indices. After the inner loop `expected` is the shred's index,
  -- unless it was beyond it already.
  unfoldable pub missing_indices : ℕ → List Shred → List ℕ
  unfolding missing_before
  missing_indices expected [] = []
  missing_indices expected (shred ∷ shreds) =
      let gap = missing_before (l.index shred - expected) expected in
      let reached = if leb expected (l.index shred) then l.index shred else expected in
      gap ++ missing_indices ((reached + 1) % u32_mod) shreds

  -- `match Shredder::try_recovery(..)`
  unfoldable pub recover : List Shred → Outcome ShredError (List Shred)
  recover shreds = elim (l.try_recovery shreds) [
    | ok recovered ↦ ok recovered
    | err e ↦ err (recovery_failed e)
    | panicked ↦ panicked
  ]

  -- The body of `if !aligned || !data_complete`. What is recovered is bound to a name of the block,
  -- so nothing but success or failure leaves it.
  unfoldable pub try_repair : ℕ → List Shred → List Shred → Outcome ShredError (Unit {0})
  try_repair index data_shreds code_shreds = do
    guard (not (is_empty data_shreds)) no_data_shreds
    guard (not (is_empty code_shreds)) no_code_shreds
    let missing = missing_indices index data_shreds
    guard (leb (length missing) (length code_shreds)) (too_many_missing missing)
    recovered ← recover (data_shreds ++ code_shreds)
    let in_order = aligned index recovered
    last_shred ← or_panic (last recovered)
    guard (in_order && is_data_complete last_shred)
        (not_repaired in_order (is_data_complete last_shred))

  unfoldable pub validate_and_try_repair : List Shred → List Shred → Outcome ShredError (List Shred)
  validate_and_try_repair data_shreds code_shreds = do
    first_shred ← or_panic (first data_shreds)
    let index = l.index first_shred
    last_shred ← or_panic (last data_shreds)
    (if aligned index data_shreds && is_data_complete last_shred
        then ok tt
        else try_repair index data_shreds code_shreds)
    ok data_shreds
