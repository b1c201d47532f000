-- ===== src/Shred/Repair/Validate.antt =====
-- What `validate_and_try_repair` returns.
use shreds.Base.{
  ℕ, ◌≤◌, ◌≡◌, ◌≢◌, ◌⊎◌, refl, Bool, true, false, ◌&&◌, nat_eq, if◌then◌else◌, Option, none, some,
  List, [], ◌∷◌, ◌++◌, length, ok, err, panicked, ◌>>◌, Outcome-cases, arith, inl, inr, Bool-cases,
}
use shreds.Ledger.{Ledger}
use shreds.Shred.Header.{no_data_shreds}
use shreds.Shred.Repair.{
  last, aligned, is_data_complete, missing_indices, recover, try_repair, validate_and_try_repair,
}

module _ {Shred ShredId : Type 0} (l : Ledger Shred ShredId) where
  abbrev pub ends_complete : Option Shred → Bool
  ends_complete none = false
  ends_complete (some shred) = is_data_complete l shred

  -- The check of the function, for shreds that should begin at `index`.
  abbrev pub intact : ℕ → List Shred → Bool
  intact index shreds = aligned l index shreds && ends_complete (last shreds)

  -- A repair that succeeds had no more missing indices than coding shreds, and recovered shreds that
  -- are intact.
  abbrev pub Repaired : ℕ → List Shred → List Shred → Type 0
  Repaired index data_shreds code_shreds =
      (length (missing_indices l index data_shreds) ≤ length code_shreds)
      × ((recovered : List Shred) × (l.try_recovery (data_shreds ++ code_shreds) ≡ ok recovered)
          × (intact index recovered ≡ true))

  try_repair_ok :
      (index : ℕ) (data_shreds code_shreds : List Shred)
      → try_repair l index data_shreds code_shreds ≡ ok tt
      → Repaired index data_shreds code_shreds
  unfolding try_repair recover
  try_repair_ok index data_shreds code_shreds h =
      elim (Outcome-cases (l.try_recovery (data_shreds ++ code_shreds))) [
        | inl (recovered, p) ↦ (ground (arith, p), (recovered, p, ground (arith, p)))
        | inr (inl (e, p)) ↦ absurd (ground (arith, p))
        | inr (inr p) ↦ absurd (ground (arith, p))
      ]

  last-cons : (shred : Shred) (shreds : List Shred) → (s : Shred) × (last (shred ∷ shreds) ≡ some s)
  last-cons shred [] = (shred, refl)
  last-cons shred (next ∷ shreds) = last-cons next shreds

  -- The function on shreds that are there, with its check as one test.
  validate_step :
      (shred : Shred) (shreds code_shreds : List Shred)
      → let data_shreds = shred ∷ shreds in
        validate_and_try_repair l data_shreds code_shreds ≡ (
          (if intact (l.index shred) data_shreds
            then ok tt
            else try_repair l (l.index shred) data_shreds code_shreds)
          >> ok data_shreds)
  unfolding validate_and_try_repair
  validate_step shred shreds code_shreds = let (s, p) = last-cons shred shreds in rw p refl

  -- On one data shred or more, when the function succeeds it returns the data shreds that it was
  -- given, unchanged: they were intact, or a repair succeeded, whose result is dropped.
  pub validate_and_try_repair_ok :
      (shred : Shred) (shreds code_shreds result : List Shred)
      → validate_and_try_repair l (shred ∷ shreds) code_shreds ≡ ok result
      → (result ≡ shred ∷ shreds)
        × ((intact (l.index shred) (shred ∷ shreds) ≡ true)
            ⊎ Repaired (l.index shred) (shred ∷ shreds) code_shreds)
  validate_and_try_repair_ok shred shreds code_shreds result h =
      elim (Bool-cases (intact (l.index shred) (shred ∷ shreds))) [
        | inl whole ↦ (cc (validate_step shred shreds code_shreds), inl whole)
        | inr broken ↦
            elim (Outcome-cases (try_repair l (l.index shred) (shred ∷ shreds) code_shreds)) [
              | inl (done, p) ↦ (
                ground (arith, p, broken, validate_step shred shreds code_shreds),
                inr (try_repair_ok (l.index shred) (shred ∷ shreds) code_shreds p),
              )
              | inr (inl (e, p)) ↦
                  absurd (ground (arith, p, validate_step shred shreds code_shreds))
              | inr (inr p) ↦ absurd (ground (arith, p, validate_step shred shreds code_shreds))
            ]
      ]

  -- Without data shreds the function panics, so its error for that case is never returned.
  pub validate_and_try_repair-ne-no_data_shreds :
      (data_shreds code_shreds : List Shred)
      → (validate_and_try_repair l data_shreds code_shreds ≢ err no_data_shreds)
        × ((validate_and_try_repair l data_shreds code_shreds ≡ panicked) ⊎ (data_shreds ≢ []))
  unfolding validate_and_try_repair try_repair recover
  validate_and_try_repair-ne-no_data_shreds [] code_shreds = (λ h. cc, inl refl)
  validate_and_try_repair-ne-no_data_shreds (shred ∷ shreds) code_shreds =
      (λ h. ground (arith, validate_step shred shreds code_shreds), inr (λ h. cc))
