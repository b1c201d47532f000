-- ===== src/Benchmark/Examples.antt =====
-- The comparison of two short lists.
use shreds.Base.{ℕ, ◌+◌, true, refl, nat_eq, some, List, [], ◌∷◌}
use shreds.Benchmark.{Float, Feed, benchmark_cmd}
use shreds.Benchmark.Window.{Compares, benchmark_cmd-Compares}

-- Exact numbers, as what is to be added and what is to be taken away.
abbrev exact : Float
exact = record {
  F64 = ℕ × ℕ;
  of_u64 = λ n. (n, 0);
  of_i32 = λ n. (n, 0);
  add = λ a b. (a.0 + b.0, a.1 + b.1);
  sub = λ a b. (a.0 + b.1, a.1 + b.0);
  div = λ a b. a;
}

abbrev feed : Feed
feed = record {
  variables = λ key. some "ws://localhost";
  connects = λ url. true;
  subscribes = true;
  stream = (10, 1) ∷ (20, 2) ∷ (30, 3) ∷ [];
}

abbrev signed : List (ℕ × ℕ)
signed = (5, 1) ∷ (7, 1) ∷ (30, 3) ∷ []

benchmark_cmd-Compares_example :
    Compares exact feed.stream signed (benchmark_cmd exact feed true signed)
benchmark_cmd-Compares_example =
    benchmark_cmd-Compares exact feed true signed (refl, (refl, (refl, tt)))
