-- ===== src/Benchmark/Window.antt =====
-- What `benchmark_cmd` reports of the signatures that came before its tasks were aborted.
use mathlib.Core.List.{append-nil, append_assoc}
use shreds.Base.{
  ℕ, ◌≡◌, refl, ap, sym, ◌∙◌, Bool, true, false, ◌&&◌, ◌==◌, nat_eq, if◌then◌else◌, Option, none,
  some, List, [], ◌∷◌, ◌++◌, contains, Option-cases, inl, inr, arith,
}
use shreds.Base.Assoc.{lookup, remove, Distinct, lookup-remove, remove-Distinct}
use shreds.Listener.{stamp_sig, stamp_sigs}
use shreds.Benchmark.{
  Float, Report, Feed, shreds_sigs_map, compare_one, compare_loop, compare_results, no_results,
  push_sigs, listen_pubsub, shared_list, benchmark_cmd,
}
use shreds.Benchmark.Counts.{
  sigs, AreDistinct, last_timestamp, Adds, compare_results_lem, shreds_sigs_map-last,
  shreds_sigs_map-Distinct,
}

module _ (float : Float) where
  -- The differences of the signatures that were found, added to a number one after the other.
  abbrev pub sum_diffs : (ℕ → Option ℕ) → List (ℕ × ℕ) → float.F64 → float.F64
  sum_diffs table [] sum = sum
  sum_diffs table ((timestamp, sig) ∷ rest) sum = sum_diffs table rest (elim (table sig) [
    | none ↦ sum
    | some found ↦ float.add sum (float.sub (float.of_u64 found) (float.of_u64 timestamp))
  ])

  sum_diffs-table :
      (f g : ℕ → Option ℕ) (xs : List (ℕ × ℕ)) (sum : float.F64)
      → ((sig : ℕ) → contains (sigs xs) sig ≡ true → f sig ≡ g sig)
      → sum_diffs f xs sum ≡ sum_diffs g xs sum
  sum_diffs-table f g [] sum same = refl
  sum_diffs-table f g ((timestamp, sig) ∷ rest) sum same =
      rw (same sig (ground arith)) (sum_diffs-table f g rest _ (λ s h. same s (ground arith)))

  sum_diffs-remove :
      (sig : ℕ) (m rest : List (ℕ × ℕ)) (sum : float.F64)
      → Distinct m
      → contains (sigs rest) sig ≡ false
      → sum_diffs (λ s. lookup s (remove sig m)) rest sum ≡ sum_diffs (λ s. lookup s m) rest sum
  sum_diffs-remove sig m rest sum d h =
      sum_diffs-table (λ s. lookup s (remove sig m)) (λ s. lookup s m) rest sum
        (λ s k.
          let differs : (sig == s) ≡ false = grind (arith) in
          rw (lookup-remove sig s m d, differs) refl)

  compare_one-sum :
      (report : Report float.F64) (found : Option ℕ) (timestamp sig : ℕ)
      → (compare_one float report found timestamp).average_diff
        ≡ sum_diffs (λ s. found) ((timestamp, sig) ∷ []) report.average_diff
  unfolding compare_one
  compare_one-sum report none timestamp sig = refl
  compare_one-sum report (some t) timestamp sig = ground arith

  compare_loop-sum :
      (xs m : List (ℕ × ℕ)) (report : Report float.F64)
      → Distinct m
      → AreDistinct xs
      → (compare_loop float xs m report).average_diff
        ≡ sum_diffs (λ sig. lookup sig m) xs report.average_diff
  unfolding compare_loop
  compare_loop-sum [] m report d u = refl
  compare_loop-sum ((timestamp, sig) ∷ rest) m report d u =
      compare_loop-sum rest (remove sig m) (compare_one float report (lookup sig m) timestamp)
        (remove-Distinct sig m d) u.1
      ∙ sum_diffs-remove sig m rest _ d u.0
      ∙ ap (sum_diffs (λ s. lookup s m) rest) (compare_one-sum report (lookup sig m) timestamp sig)

  -- The counts and the sum of a report that compares two lists.
  abbrev pub Compares : List (ℕ × ℕ) → List (ℕ × ℕ) → Report float.F64 → Type 0
  Compares heard signed report =
      Adds float (no_results float) (last_timestamp signed) heard report
      × (report.average_diff ≡ sum_diffs (last_timestamp signed) heard (float.of_u64 0))

  compare_results-Compares :
      (heard signed : List (ℕ × ℕ))
      → AreDistinct heard
      → Compares heard signed (compare_results float heard signed)
  unfolding compare_results
  compare_results-Compares heard signed u = (
    compare_results_lem float heard signed u,
    compare_loop-sum heard (shreds_sigs_map signed []) (no_results float)
          (shreds_sigs_map-Distinct signed [] tt) u
        ∙ sum_diffs-table (λ sig. lookup sig (shreds_sigs_map signed [])) (last_timestamp signed)
            heard (float.of_u64 0) (λ sig k. shreds_sigs_map-last signed sig),
  )

  push_sigs-append : (xs stream : List (ℕ × ℕ)) → push_sigs xs stream ≡ xs ++ stream
  push_sigs-append xs [] = sym (append-nil xs)
  push_sigs-append xs (x ∷ stream) =
      push_sigs-append (xs ++ (x ∷ [])) stream ∙ append_assoc xs (x ∷ []) stream

  stamp_sigs-append :
      (xs signed : List (ℕ × ℕ)) → stamp_sigs true (some xs) signed ≡ some (xs ++ signed)
  unfolding stamp_sigs stamp_sig
  stamp_sigs-append xs [] = ap some (sym (append-nil xs))
  stamp_sigs-append xs ((timestamp, sig) ∷ signed) =
      stamp_sigs-append (xs ++ ((timestamp, sig) ∷ [])) signed
      ∙ ap some (append_assoc xs ((timestamp, sig) ∷ []) signed)

  -- What the subscription gave: all of the stream, or nothing where it could not be made.
  abbrev pub heard_of : Feed → List (ℕ × ℕ)
  heard_of feed = elim (feed.variables "WS_URL") [
    | none ↦ []
    | some url ↦ if feed.connects url && feed.subscribes then feed.stream else []
  ]

  shared_list-heard : (feed : Feed) → shared_list (listen_pubsub feed []) ≡ heard_of feed
  unfolding listen_pubsub
  shared_list-heard feed = elim (Option-cases (feed.variables "WS_URL")) [
    | inl unset ↦ ground (arith, unset)
    | inr (url, p) ↦ ground (arith, p, push_sigs-append [] feed.stream)
  ]

  -- Where no signature comes twice over the subscription, the report counts each that came: as a miss
  -- if the shreds never had it, and else as found, faster or slower by the last time that they had
  -- it, each count modulo 2^32; and it sums the differences of those found, in their order. Nothing comes over a subscription
  -- that could not be made, and the shreds have nothing where the address could not be bound.
  pub benchmark_cmd-Compares :
      (feed : Feed) (is_bound : Bool) (signed : List (ℕ × ℕ))
      → AreDistinct (heard_of feed)
      → Compares
          (heard_of feed)
          (if is_bound then signed else [])
          (benchmark_cmd float feed is_bound signed)
  unfolding benchmark_cmd
  benchmark_cmd-Compares feed is_bound signed u =
      rw (shared_list-heard feed, stamp_sigs-append [] signed)
        (compare_results-Compares (heard_of feed) (if is_bound then signed else []) u)
