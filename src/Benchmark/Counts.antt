-- ===== src/Benchmark/Counts.antt =====
-- The counts of `compare_results` against the two lists.
use shreds.Base.{
  ℕ, ◌+◌, ◌%◌, ◌<◌, ◌≡◌, refl, ap, Bool, true, false, ◌==◌, nat_eq, ltb, if◌then◌else◌, Option,
  none, some, List, [], ◌∷◌, contains, arith,
}
use shreds.Base.Words.{u32_mod}
use shreds.Base.Assoc.{
  lookup, insert, remove, Distinct, lookup-insert, insert-Distinct, lookup-remove, remove-Distinct,
}
use shreds.Benchmark.{
  Float, Report, shreds_sigs_map, compare_one, compare_loop, compare_results, no_results,
}

-- The timestamp of the last entry with a signature.
abbrev pub last_timestamp : List (ℕ × ℕ) → ℕ → Option ℕ
last_timestamp [] sig = none
last_timestamp ((timestamp, other) ∷ rest) sig = elim (last_timestamp rest sig) [
  | some later ↦ some later
  | none ↦ if other == sig then some timestamp else none
]

abbrev pub sigs : List (ℕ × ℕ) → List ℕ
sigs [] = []
sigs ((timestamp, sig) ∷ rest) = sig ∷ sigs rest

-- No signature comes twice.
abbrev pub AreDistinct : List (ℕ × ℕ) → Type 0
AreDistinct [] = Unit {0}
AreDistinct ((timestamp, sig) ∷ rest) = (contains (sigs rest) sig ≡ false) × AreDistinct rest

-- How a signature fared, by the timestamp that shreds gave it.
abbrev pub is_miss : Option ℕ → ℕ → Bool
is_miss none pubsub_timestamp = true
is_miss (some timestamp) pubsub_timestamp = false

abbrev pub is_faster : Option ℕ → ℕ → Bool
is_faster none pubsub_timestamp = false
is_faster (some timestamp) pubsub_timestamp = ltb timestamp pubsub_timestamp

abbrev pub is_slower : Option ℕ → ℕ → Bool
is_slower none pubsub_timestamp = false
is_slower (some timestamp) pubsub_timestamp = ltb pubsub_timestamp timestamp

abbrev pub is_found : Option ℕ → ℕ → Bool
is_found none pubsub_timestamp = false
is_found (some timestamp) pubsub_timestamp = true

-- How many of some signatures fare in a way, by a table of timestamps.
abbrev pub tally : (Option ℕ → ℕ → Bool) → (ℕ → Option ℕ) → List (ℕ × ℕ) → ℕ
tally q table [] = 0
tally q table ((timestamp, sig) ∷ rest) =
    (if q (table sig) timestamp then 1 else 0) + tally q table rest

tally-remove :
    (q : Option ℕ → ℕ → Bool) (sig : ℕ) (m : List (ℕ × ℕ)) (rest : List (ℕ × ℕ))
    → Distinct m
    → contains (sigs rest) sig ≡ false
    → tally q (λ s. lookup s (remove sig m)) rest ≡ tally q (λ s. lookup s m) rest
tally-remove q sig m [] d h = refl
tally-remove q sig m ((timestamp, other) ∷ rest) d h = rw (other_sig) (
    ap (λ n. (if q (lookup other m) timestamp then 1 else 0) + n)
      (tally-remove q sig m rest d (ground arith)))
  where
    other_sig : lookup other (remove sig m) ≡ lookup other m
    other_sig = rw (lookup-remove sig other m d) (ground arith)

tally_table :
    (q : Option ℕ → ℕ → Bool) (f g : ℕ → Option ℕ)
    → ((sig : ℕ) → f sig ≡ g sig)
    → (xs : List (ℕ × ℕ)) → tally q f xs ≡ tally q g xs
tally_table q f g same [] = refl
tally_table q f g same ((timestamp, sig) ∷ rest) = rw (same sig, tally_table q f g same rest) refl

lookup-shreds_sigs_map :
    (xs m : List (ℕ × ℕ)) (sig : ℕ)
    → lookup sig (shreds_sigs_map xs m)
      ≡ (elim (last_timestamp xs sig) [ some t ↦ some t | none ↦ lookup sig m ])
unfolding shreds_sigs_map
lookup-shreds_sigs_map [] m sig = refl
lookup-shreds_sigs_map ((timestamp, other) ∷ rest) m sig = ground (
  arith,
  lookup-shreds_sigs_map rest (insert other timestamp m) sig,
  lookup-insert other sig timestamp m,
)

pub shreds_sigs_map-Distinct : (xs m : List (ℕ × ℕ)) → Distinct m → Distinct (shreds_sigs_map xs m)
unfolding shreds_sigs_map
shreds_sigs_map-Distinct [] m d = d
shreds_sigs_map-Distinct ((timestamp, sig) ∷ rest) m d =
    shreds_sigs_map-Distinct rest (insert sig timestamp m) (insert-Distinct sig timestamp m d)

pub shreds_sigs_map-last :
    (xs : List (ℕ × ℕ)) (sig : ℕ) → lookup sig (shreds_sigs_map xs []) ≡ last_timestamp xs sig
unfolding lookup
shreds_sigs_map-last xs sig = ground (arith, lookup-shreds_sigs_map xs [] sig)

module _ (float : Float) where
  -- Each count is a 32-bit number.
  abbrev pub Fits : Report float.F64 → Type 0
  Fits report =
      (report.miss_count < u32_mod)
      × (report.faster_count < u32_mod)
      × (report.slower_count < u32_mod)
      × (report.count < u32_mod)

  -- A report that has these counts more than another, modulo 2^32.
  abbrev pub Adds : Report float.F64 → (ℕ → Option ℕ) → List (ℕ × ℕ) → Report float.F64 → Type 0
  Adds before table xs after =
      (after.miss_count ≡ (before.miss_count + tally is_miss table xs) % u32_mod)
      × (after.faster_count ≡ (before.faster_count + tally is_faster table xs) % u32_mod)
      × (after.slower_count ≡ (before.slower_count + tally is_slower table xs) % u32_mod)
      × (after.count ≡ (before.count + tally is_found table xs) % u32_mod)

  compare_one-Adds :
      (report : Report float.F64) (found : Option ℕ) (timestamp sig : ℕ)
      → Fits report
      → Adds report (λ s. found) ((timestamp, sig) ∷ []) (compare_one float report found timestamp)
        × Fits (compare_one float report found timestamp)
  unfolding compare_one
  compare_one-Adds report none timestamp sig fits = ground arith
  compare_one-Adds report (some t) timestamp sig fits = ground arith

  compare_loop-Adds :
      (xs m : List (ℕ × ℕ)) (report : Report float.F64)
      → Fits report
      → Distinct m
      → AreDistinct xs
      → Adds report (λ sig. lookup sig m) xs (compare_loop float xs m report)
  unfolding compare_loop
  compare_loop-Adds [] m report fits d u = omega arith
  compare_loop-Adds ((timestamp, sig) ∷ rest) m report fits d u =
      let next = compare_one float report (lookup sig m) timestamp in
      let (now, fits') = compare_one-Adds report (lookup sig m) timestamp sig fits in
      let later = compare_loop-Adds rest (remove sig m) next fits' (remove-Distinct sig m d) u.1 in
      (
        omega (arith, now.0, later.0, tally-remove is_miss sig m rest d u.0),
        omega (arith, now.1, later.1, tally-remove is_faster sig m rest d u.0),
        omega (arith, now.2, later.2, tally-remove is_slower sig m rest d u.0),
        omega (arith, now.3, later.3, tally-remove is_found sig m rest d u.0),
      )

  -- Where no signature came twice over pubsub, the report counts each of them once, modulo 2^32: as a miss
  -- if shreds never had it, and else as found, faster or slower by the last timestamp that shreds had for
  -- it.
  pub compare_results_lem :
      (pubsub_sigs shreds_sigs : List (ℕ × ℕ))
      → AreDistinct pubsub_sigs
      → Adds
          (no_results float)
          (last_timestamp shreds_sigs)
          pubsub_sigs
          (compare_results float pubsub_sigs shreds_sigs)
  unfolding compare_results lookup
  compare_results_lem pubsub_sigs shreds_sigs u =
      let m = shreds_sigs_map shreds_sigs [] in
      let same = λ (sig : ℕ). shreds_sigs_map-last shreds_sigs sig in
      omega (
        arith,
        compare_loop-Adds pubsub_sigs m (no_results float) (omega arith)
            (shreds_sigs_map-Distinct shreds_sigs [] tt) u,
        tally_table is_miss (λ sig. lookup sig m) (last_timestamp shreds_sigs) same pubsub_sigs,
        tally_table is_faster (λ sig. lookup sig m) (last_timestamp shreds_sigs) same pubsub_sigs,
        tally_table is_slower (λ sig. lookup sig m) (last_timestamp shreds_sigs) same pubsub_sigs,
        tally_table is_found (λ sig. lookup sig m) (last_timestamp shreds_sigs) same pubsub_sigs,
      )
