-- ===== src/Listener/Save.antt =====
-- When the save mode writes its file, and what it writes.
use mathlib.Core.List.{append-nil, append_assoc, map-append}
use shreds.Base.{
  ℕ, zero, suc, ◌+◌, ◌<◌, ◌≤◌, ◌≡◌, refl, ap, ◌∙◌, sym, true, false, none, some, List, [], ◌∷◌,
  ◌++◌, length, length-append, length-map, map, take, flat_map, Option, ok, panicked, Option-cases,
  string_eq, Bool-cases, ◌⊎◌, inl, inr, arith,
}
use shreds.Service.{packet_of}
use shreds.Base.Assoc.{lookup, insert, lookup-insert_self}
use shreds.Disk.{Disk, Os, OnDisk}
use shreds.Listener.{
  packets_path, listen, enough, wait_for_packets, dump_to_file, run_listener_with_save,
}

pub listen-map :
    (received datagrams : List (List ℕ))
    → listen received datagrams ≡ received ++ map packet_of datagrams
unfolding listen
listen-map received [] = sym (append-nil received)
listen-map received (datagram ∷ datagrams) =
    listen-map (received ++ (packet_of datagram ∷ [])) datagrams
    ∙ append_assoc received (packet_of datagram ∷ []) (map packet_of datagrams)

-- The datagrams of the first seconds.
abbrev pub first_seconds : ℕ → List (List (List ℕ)) → List (List ℕ)
first_seconds n seconds = flat_map (λ second. second) (take n seconds)

-- The file is written after the first `n` seconds: the packets are more than 100,000 then for the first
-- time, and it holds them and those that came late.
abbrev pub Saves : ℕ → List (List ℕ) → List (List (List ℕ)) → List (List ℕ) → List (List ℕ) → Type 0
Saves n received seconds late dumped =
    (dumped ≡ received ++ map packet_of (first_seconds n seconds ++ late))
    × (100_000 < length received + length (first_seconds n seconds))
    × ((k : ℕ) → k < n → length received + length (first_seconds k seconds) ≤ 100_000)

dumps_now :
    (received late : List (List ℕ)) (seconds : List (List (List ℕ)))
    → enough received ≡ true
    → Saves 0 received seconds late (listen received late)
unfolding enough
dumps_now received late seconds h =
    (listen-map received late, ground arith, λ k lt. absurd (omega arith))

dumps_later :
    (n : ℕ) (received second late dumped : List (List ℕ)) (seconds : List (List (List ℕ)))
    → enough received ≡ false
    → Saves n (listen received second) seconds late dumped
    → Saves (suc n) received (second ∷ seconds) late dumped
unfolding enough
dumps_later n received second late dumped seconds few (p, q, r) = (
  p
      ∙ ap (λ s. s ++ map packet_of (first_seconds n seconds ++ late)) (listen-map received second)
      ∙ append_assoc received (map packet_of second)
          (map packet_of (first_seconds n seconds ++ late))
      ∙ ap (λ s. received ++ s)
          (sym (map-append packet_of second (first_seconds n seconds ++ late))
            ∙ ap (map packet_of) (sym (append_assoc second (first_seconds n seconds) late))),
  omega (arith, q, longer, length-append second (first_seconds n seconds)),
  earlier,
)
  where
    longer : length (listen received second) ≡ length received + length second
    longer =
        ap length (listen-map received second)
        ∙ length-append received (map packet_of second)
        ∙ ap (λ m. length received + m) (length-map packet_of second)

    earlier :
        (k : ℕ)
        → k < suc n
        → length received + length (first_seconds k (second ∷ seconds)) ≤ 100_000
    earlier zero lt = ground arith
    earlier (suc k) lt =
        omega (arith, r k (omega arith), longer, length-append second (first_seconds k seconds))

few_at_most : (received : List (List ℕ)) → enough received ≡ false → length received + 0 ≤ 100_000
unfolding enough
few_at_most received few = ground arith

wait_for_packets_lem :
    (received late : List (List ℕ)) (seconds : List (List (List ℕ)))
    → ((dumped : List (List ℕ)) × (n : ℕ) × (wait_for_packets received seconds late ≡ some dumped)
        × Saves n received seconds late dumped)
      ⊎ ((wait_for_packets received seconds late ≡ none)
          × (length received + length (flat_map (λ second. second) seconds) ≤ 100_000))
unfolding wait_for_packets
wait_for_packets_lem received late [] = elim (Bool-cases (enough received)) [
  | inl many ↦ inl (listen received late, 0, rw many refl, dumps_now received late [] many)
  | inr few ↦ inr (rw few refl, few_at_most received few)
]
wait_for_packets_lem received late (second ∷ seconds) = elim (Bool-cases (enough received)) [
  | inl many ↦
      inl (listen received late, 0, rw many refl, dumps_now received late (second ∷ seconds) many)
  | inr few ↦ elim (wait_for_packets_lem (listen received second) late seconds) [
    | inl (dumped, n, p, saves) ↦
        inl (dumped, suc n, rw few p, dumps_later n received second late dumped seconds few saves)
    | inr (p, few_in_all) ↦ inr (
      rw few p,
      omega (
        arith,
        few_in_all,
        ap length (listen-map received second) ∙ length-append received (map packet_of second),
        length-map packet_of second,
        length-append second (flat_map (λ s. s) seconds),
      ),
    )
  ]
]

-- What `dump_to_file` does with some packets: nothing but a panic where the file cannot be created; the JSON
-- text of the packets alone in the file where it can be written; and else an empty file and a panic.
abbrev pub Dumps :
    Os → (List (List ℕ) → Option (List ℕ)) → List (List ℕ) → Disk → OnDisk ⊥ (Unit {0}) → Type 0
Dumps os to_string packets disk result =
    ((os.creates packets_path ≡ false) × (result ≡ (disk, panicked)))
    ⊎ ((os.creates packets_path ≡ true)
        × (as_json : List ℕ) × (to_string packets ≡ some as_json)
        × (os.writes packets_path as_json ≡ true)
        × (result.1 ≡ ok tt)
        × (lookup packets_path result.0 ≡ some as_json))
    ⊎ ((os.creates packets_path ≡ true)
        × ((to_string packets ≡ none)
            ⊎ ((as_json : List ℕ) × (to_string packets ≡ some as_json)
                × (os.writes packets_path as_json ≡ false)))
        × (result.1 ≡ panicked)
        × (lookup packets_path result.0 ≡ some []))

module _ (os : Os) (to_string : List (List ℕ) → Option (List ℕ)) where
  dump_to_file-Dumps :
      (packets : List (List ℕ)) (disk : Disk)
      → Dumps os to_string packets disk (dump_to_file os to_string packets disk)
  unfolding dump_to_file
  dump_to_file-Dumps packets disk =
      let emptied = lookup-insert_self packets_path [] disk in
      elim (Bool-cases (os.creates packets_path)) [
        | inr fails ↦ inl (fails, ground (arith, fails))
        | inl creates ↦ elim (Option-cases (to_string packets)) [
          | inl not_text ↦
              let left : dump_to_file os to_string packets disk
                  ≡ (insert packets_path [] disk, panicked) =
                ground (arith, creates, not_text) in
              inr (
                inr (
                  creates,
                  inl not_text,
                  ap (λ r. r.1) left,
                  ap (λ r. lookup packets_path r.0) left ∙ emptied,
                ))
          | inr (as_json, text) ↦ elim (Bool-cases (os.writes packets_path as_json)) [
            | inl writes ↦
                let left : dump_to_file os to_string packets disk
                    ≡ (insert packets_path as_json (insert packets_path [] disk), ok tt) =
                  ground (arith, creates, text, writes, emptied) in
                inr (
                  inl (
                    creates,
                    as_json,
                    text,
                    writes,
                    ap (λ r. r.1) left,
                    ap (λ r. lookup packets_path r.0) left
                        ∙ lookup-insert_self packets_path as_json (insert packets_path [] disk),
                  ))
            | inr fails ↦
                let left : dump_to_file os to_string packets disk
                    ≡ (insert packets_path [] disk, panicked) =
                  ground (arith, creates, text, fails) in
                inr (
                  inr (
                    creates,
                    inr (as_json, text, fails),
                    ap (λ r. r.1) left,
                    ap (λ r. lookup packets_path r.0) left ∙ emptied,
                  ))
          ]
        ]
      ]

  pub run_listener_with_save_lem :
      (seconds : List (List (List ℕ))) (late : List (List ℕ)) (disk : Disk)
      → ((dumped : List (List ℕ)) × (n : ℕ) × (result : OnDisk ⊥ (Unit {0}))
          × (run_listener_with_save os to_string seconds late disk ≡ some result)
          × Saves n [] seconds late dumped
          × Dumps os to_string dumped disk result)
        ⊎ ((run_listener_with_save os to_string seconds late disk ≡ none)
            × (length (flat_map (λ second. second) seconds) ≤ 100_000))
  unfolding run_listener_with_save
  run_listener_with_save_lem seconds late disk = elim (wait_for_packets_lem [] late seconds) [
    | inl (dumped, n, p, saves) ↦ inl (
      dumped,
      n,
      dump_to_file os to_string dumped disk,
      rw (run_listener_with_save, p) refl,
      saves,
      dump_to_file-Dumps dumped disk,
    )
    | inr (p, few) ↦ inr (rw (run_listener_with_save, p) refl, omega (arith, few))
  ]
