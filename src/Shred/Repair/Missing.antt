-- ===== src/Shred/Repair/Missing.antt =====
-- The missing indices that `validate_and_try_repair` collects, for shreds in the order that
-- `preprocess_shreds` leaves them in.
use shreds.Base.{
  ℕ, zero, suc, ◌+◌, ◌-◌, ◌%◌, ◌≤◌, ◌<◌, ◌≡◌, refl, ap, sym, inl, inr, Bool-cases, nat_beq_iff,
  le→leb, false, not, ◌&&◌, ◌||◌, ◌==◌, nat_eq, ltb, leb, contains, List, [], ◌∷◌, ◌++◌, length,
  length-append, map, All, arith,
}
use shreds.Base.Words.{u32_mod}
use shreds.Base.Sort.{IsStrict}
use shreds.Ledger.{Ledger}
use shreds.Shred.Repair.{aligned, missing_before, missing_indices}

length-missing_before : (n expected : ℕ) → length (missing_before n expected) ≡ n
unfolding missing_before
length-missing_before zero expected = refl
length-missing_before (suc n) expected = omega (arith, length-missing_before n (expected + 1))

contains-missing_before :
    (n expected i : ℕ)
    → contains (missing_before n expected) i ≡ (leb expected i && ltb i (expected + n))
unfolding missing_before
contains-missing_before zero expected i = ground arith
contains-missing_before (suc n) expected i =
    ground (arith, contains-missing_before n (expected + 1) i)

contains-append :
    (xs ys : List ℕ) (i : ℕ) → contains (xs ++ ys) i ≡ (contains xs i || contains ys i)
contains-append [] ys i = refl
contains-append (x ∷ xs) ys i = ground (arith, contains-append xs ys i)

module _ {Shred ShredId : Type 0} (l : Ledger Shred ShredId) where
  -- Indices that rise strictly from `expected` on, and stay below the largest `u32`.
  abbrev pub Rising : ℕ → List Shred → Type 0
  Rising expected [] = Unit {0}
  Rising expected (shred ∷ shreds) =
      (expected ≤ l.index shred) × (l.index shred + 1 < u32_mod) × Rising (l.index shred + 1) shreds

  -- One past the last index.
  abbrev pub end_of : ℕ → List Shred → ℕ
  end_of expected [] = expected
  end_of expected (shred ∷ shreds) = end_of (l.index shred + 1) shreds

  abbrev pub indices : List Shred → List ℕ
  indices = map l.index

  All-lt-le :
      (n : ℕ) (shreds : List Shred)
      → All (λ s. n < l.index s) shreds
      → All (λ s. n + 1 ≤ l.index s) shreds
  All-lt-le n [] a = tt
  All-lt-le n (shred ∷ shreds) a = (omega arith, All-lt-le n shreds a.1)

  IsStrict-Rising_from :
      (expected : ℕ) (shreds : List Shred)
      → All (λ s. expected ≤ l.index s) shreds
      → All (λ s. l.index s + 1 < u32_mod) shreds
      → IsStrict l.index shreds
      → Rising expected shreds
  IsStrict-Rising_from expected [] a b s = tt
  IsStrict-Rising_from expected (shred ∷ shreds) a b s = (
    a.0,
    b.0,
    IsStrict-Rising_from (l.index shred + 1) shreds (All-lt-le (l.index shred) shreds s.0) b.1 s.1,
  )

  step_up :
      (shred : Shred) (shreds : List Shred) (expected : ℕ)
      → expected ≤ l.index shred
      → l.index shred + 1 < u32_mod
      → missing_indices l expected (shred ∷ shreds)
        ≡ missing_before (l.index shred - expected) expected
          ++ missing_indices l (l.index shred + 1) shreds
  unfolding missing_indices
  step_up shred shreds expected h k = rw (le→leb expected (l.index shred) h, wrap) refl
    where
      wrap : (l.index shred + 1) % u32_mod ≡ l.index shred + 1
      wrap = omega arith

  end_of-le :
      (expected : ℕ) (shreds : List Shred)
      → Rising expected shreds
      → expected ≤ end_of expected shreds
  end_of-le expected [] r = omega arith
  end_of-le expected (shred ∷ shreds) r = omega (arith, end_of-le (l.index shred + 1) shreds r.2)

  indices-below :
      (expected : ℕ) (shreds : List Shred) (i : ℕ)
      → Rising expected shreds
      → i < expected
      → contains (indices shreds) i ≡ false
  indices-below expected [] i r h = refl
  indices-below expected (shred ∷ shreds) i r h =
      ground (arith, indices-below (l.index shred + 1) shreds i r.2)

  -- For shreds whose indices rise strictly, start at `expected` or above and stay below 2^32 - 1: an index
  -- is collected exactly if it is at least `expected`, at most the last index, and no shred has it; and the
  -- number of the collected ones and that of the shreds add up to the length of that range.
  pub missing_indices_lem :
      (expected : ℕ) (shreds : List Shred)
      → Rising expected shreds
      → ((i : ℕ)
          → contains (missing_indices l expected shreds) i ≡ (
              leb expected i
              && ltb i (end_of expected shreds)
              && not (contains (indices shreds) i)))
        × (length (missing_indices l expected shreds) + length shreds + expected
            ≡ end_of expected shreds)
  unfolding missing_indices
  missing_indices_lem expected [] r = ((λ i. ground arith), omega arith)
  missing_indices_lem expected (shred ∷ shreds) r =
      let (members, count) = missing_indices_lem (l.index shred + 1) shreds r.2 in
      let gap = missing_before (l.index shred - expected) expected in
      let rest = missing_indices l (l.index shred + 1) shreds in
      rw (step_up shred shreds expected r.0 r.1) (
        (λ i. ground (
          arith,
          contains-append gap rest i,
          contains-missing_before (l.index shred - expected) expected i,
          members i,
          end_of-le (l.index shred + 1) shreds r.2,
          indices-below (l.index shred + 1) shreds i r.2,
        )),
        omega (
          arith,
          length-append gap rest,
          length-missing_before (l.index shred - expected) expected,
          count,
        ),
      )

  aligned_step :
      (shred : Shred) (shreds : List Shred) (expected : ℕ)
      → expected ≤ l.index shred
      → l.index shred + 1 < u32_mod
      → aligned l expected (shred ∷ shreds)
        ≡ ((l.index shred == expected) && aligned l (l.index shred + 1) shreds)
  unfolding aligned
  aligned_step shred shreds expected le h = elim (Bool-cases (l.index shred == expected)) [
    | inl same ↦
        rw (same, wrap)
          (ap (λ i. aligned l (i + 1) shreds) (sym ((nat_beq_iff (l.index shred) expected).0 same)))
    | inr other ↦ rw other refl
  ]
    where
      wrap : (expected + 1) % u32_mod ≡ expected + 1
      wrap = omega arith

  -- For shreds whose indices rise strictly, start at `expected` or above and stay below 2^32 - 1, the check of
  -- the alignment agrees with the collection of gaps: they are aligned just when no index is missing.
  pub aligned-missing_indices :
      (expected : ℕ) (shreds : List Shred)
      → Rising expected shreds
      → aligned l expected shreds ≡ (length (missing_indices l expected shreds) == 0)
  unfolding aligned missing_indices
  aligned-missing_indices expected [] r = refl
  aligned-missing_indices expected (shred ∷ shreds) r =
      let gap = missing_before (l.index shred - expected) expected in
      let rest = missing_indices l (l.index shred + 1) shreds in
      rw (step_up shred shreds expected r.0 r.1, aligned_step shred shreds expected r.0 r.1)
        (ground (
          arith,
          length-append gap rest,
          length-missing_before (l.index shred - expected) expected,
          aligned-missing_indices (l.index shred + 1) shreds r.2,
          r.0,
        ))
