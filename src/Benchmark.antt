-- ===== src/Benchmark.antt =====
-- src/benchmark.rs, and `benchmark_cmd` of src/main.rs: the signatures that a node and the shreds give are
-- collected with their times and compared. A signature is a number.
pub mod Counts
pub mod Window
mod Examples
use shreds.Base.{
  ℕ, ◌+◌, ◌%◌, Bool, true, false, not, ◌==◌, nat_eq, ltb, if◌then◌else◌, Option, none, some, List,
  [], ◌∷◌, ◌++◌, String, Outcome, ok, err, panicked, or_panic, guard, ◌>>=◌, ◌>>◌,
}
use shreds.Base.Assoc.{lookup, insert, remove}
use shreds.Base.Words.{u32_mod}
use shreds.Constants.{env}
use shreds.Listener.{stamp_sigs}

-- The floating point numbers of the language, and what the code does with them. An `i32` is the number of
-- its 32 bits.
pub record Float : Type 1 where
  pub F64 : Type 0
  pub of_u64 : ℕ → F64
  pub of_i32 : ℕ → F64
  pub add : F64 → F64 → F64
  pub sub : F64 → F64 → F64
  pub div : F64 → F64 → F64

-- `average_diff` is the sum of the differences, and `count` their number. The counts are of type `i32`, by
-- the default of the language, and wrap.
pub record Report (F64 : Type 0) : Type 0 where
  pub miss_count : ℕ
  pub slower_count : ℕ
  pub faster_count : ℕ
  pub count : ℕ
  pub average_diff : F64

-- The first loop: the map from the signatures to their timestamps.
unfoldable pub shreds_sigs_map : List (ℕ × ℕ) → List (ℕ × ℕ) → List (ℕ × ℕ)
shreds_sigs_map [] sigs = sigs
shreds_sigs_map ((timestamp, sig) ∷ rest) sigs = shreds_sigs_map rest (insert sig timestamp sigs)

module _ (float : Float) where
  abbrev pub no_results : Report float.F64
  no_results = record {
    miss_count = 0;
    slower_count = 0;
    faster_count = 0;
    count = 0;
    average_diff = float.of_u64 0;
  }

  abbrev pub add_diff : Report float.F64 → ℕ → ℕ → Report float.F64
  add_diff report timestamp pubsub_timestamp = record report {
    count = (report.count + 1) % u32_mod;
    average_diff =
        float.add report.average_diff
          (float.sub (float.of_u64 timestamp) (float.of_u64 pubsub_timestamp));
  }

  -- One round of the second loop, for what was removed from the map.
  unfoldable pub compare_one : Report float.F64 → Option ℕ → ℕ → Report float.F64
  compare_one report none pubsub_timestamp = record report {
    miss_count = (report.miss_count + 1) % u32_mod;
  }
  compare_one report (some timestamp) pubsub_timestamp =
      let added = add_diff report timestamp pubsub_timestamp in
      if timestamp == pubsub_timestamp
      then added
      else if ltb timestamp pubsub_timestamp
      then record added { faster_count = (report.faster_count + 1) % u32_mod }
      else record added { slower_count = (report.slower_count + 1) % u32_mod }

  unfoldable pub compare_loop : List (ℕ × ℕ) → List (ℕ × ℕ) → Report float.F64 → Report float.F64
  compare_loop [] sigs report = report
  compare_loop ((timestamp, sig) ∷ rest) sigs report =
      compare_loop rest (remove sig sigs) (compare_one report (lookup sig sigs) timestamp)

  unfoldable pub compare_results : List (ℕ × ℕ) → List (ℕ × ℕ) → Report float.F64
  compare_results pubsub_sigs shreds_sigs =
      compare_loop pubsub_sigs (shreds_sigs_map shreds_sigs []) no_results

  -- The average that is printed.
  abbrev pub average : Report float.F64 → float.F64
  average report = float.div report.average_diff (float.of_i32 report.count)

pub data PubsubError : Type 0 where
  not_connected : PubsubError
  not_subscribed : PubsubError

-- What the outside answers: the variables of the environment, whether a node is reached and takes the
-- subscription, and the signatures that come, each with the time at which it comes.
pub record Feed : Type 0 where
  pub variables : String → Option String
  pub connects : String → Bool
  pub subscribes : Bool
  pub stream : List (ℕ × ℕ)

abbrev pub push_sigs : List (ℕ × ℕ) → List (ℕ × ℕ) → List (ℕ × ℕ)
push_sigs sigs [] = sigs
push_sigs sigs (data_sig ∷ stream) = push_sigs (sigs ++ (data_sig ∷ [])) stream

-- The list that is shared, when the stream has ended.
unfoldable pub listen_pubsub : Feed → List (ℕ × ℕ) → Outcome PubsubError (List (ℕ × ℕ))
unfolding env
listen_pubsub feed sigs = do
  url ← env feed.variables "WS_URL"
  guard (feed.connects url) not_connected >>= λ connected.
      guard feed.subscribes not_subscribed >>= λ subscribed. ok (push_sigs sigs feed.stream)

-- A task that panics or has failed has not touched the list.
abbrev pub shared_list : Outcome PubsubError (List (ℕ × ℕ)) → List (ℕ × ℕ)
shared_list (ok sigs) = sigs
shared_list (err e) = []
shared_list panicked = []

abbrev pub or_none : Option (List (ℕ × ℕ)) → List (ℕ × ℕ)
or_none none = []
or_none (some sigs) = sigs

-- `benchmark_cmd`: the feed and the signatures of the listener are those that come before the two tasks
-- are aborted. The listener gives none where its address cannot be bound.
unfoldable pub benchmark_cmd : (float : Float) → Feed → Bool → List (ℕ × ℕ) → Report float.F64
benchmark_cmd float feed is_bound signed =
    compare_results float (shared_list (listen_pubsub feed []))
      (if is_bound then or_none (stamp_sigs true (some []) signed) else [])
