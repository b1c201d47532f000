-- ===== src/Listener/Examples.antt =====
-- The save mode on a second in which 100,001 packets come, and the benchmark's stamps.
use shreds.Base.{
  false, ℕ, ◌≡◌, ◌≤◌, ◌⊎◌, refl, true, Option, none, some, List, [], ◌∷◌, map, take, length,
  flat_map,
}
use shreds.Sample.{replicate, first_data}
use shreds.Disk.{Os, OnDisk}
use shreds.Listener.{run_listener_with_save, stamp_sig}
use shreds.Listener.Save.{Saves, Dumps, run_listener_with_save_lem}

abbrev busy_second : List (List ℕ)
busy_second = map (λ byte. byte ∷ []) (replicate 100_001 7)

abbrev os : Os
os = record { creates = λ path. true; writes = λ path bytes. true }

-- The first byte of each packet.
abbrev heads : List (List ℕ) → Option (List ℕ)
heads packets = some (flat_map (take 1) packets)

run_listener_with_save_lem_example :
    ((dumped : List (List ℕ)) × (n : ℕ) × (result : OnDisk ⊥ (Unit {0})) × (run_listener_with_save
          os heads
          (busy_second ∷ [])
          (first_data ∷ [])
          []
        ≡ some result)
      × Saves n [] (busy_second ∷ []) (first_data ∷ []) dumped
      × Dumps os heads dumped [] result)
    ⊎ ((run_listener_with_save os heads (busy_second ∷ []) (first_data ∷ []) [] ≡ none)
        × (length (flat_map (λ second. second) (busy_second ∷ [])) ≤ 100_000))
run_listener_with_save_lem_example =
    run_listener_with_save_lem os heads (busy_second ∷ []) (first_data ∷ []) []

stamps : stamp_sig true (some ((5, 77) ∷ [])) (6, 78) ≡ some ((5, 77) ∷ (6, 78) ∷ [])
unfolding stamp_sig
stamps = refl

stamps_nothing : stamp_sig false (some []) (6, 78) ≡ some []
unfolding stamp_sig
stamps_nothing = refl
