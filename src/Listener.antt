-- ===== src/Listener.antt =====
-- src/listener.rs: the save mode, which keeps packets until there are enough and writes them to a file,
-- and the loop that stamps signatures for the benchmark. The modes of `run_listener_with_algo` are in
-- Service.
pub mod Save
mod Examples
use shreds.Base.{
  ℕ, Bool, true, false, ◌&&◌, ltb, if◌then◌else◌, Option, none, some, List, [], ◌∷◌, ◌++◌, length,
  String, Outcome, ok, err, panicked, string_eq,
}
use shreds.Disk.{Disk, Os, OnDisk, create_file, write_all}
use shreds.Service.{packet_of}

abbrev pub packets_path : String
packets_path = "packets.json"

-- One round of `listen` for each datagram, on the packets that are shared.
unfoldable pub listen : List (List ℕ) → List (List ℕ) → List (List ℕ)
listen received_packets [] = received_packets
listen received_packets (datagram ∷ datagrams) =
    listen (received_packets ++ (packet_of datagram ∷ [])) datagrams

unfoldable pub enough : List (List ℕ) → Bool
enough packets = ltb 100_000 (length packets)

-- The loop of `run_listener_with_save`: it looks at the packets, and sleeps while others come. The
-- datagrams are those that come in each second; between the last look and the dump, whose locks are
-- two, come those of `late`. The result is what `dump_to_file` is given, if the seconds last.
unfoldable pub wait_for_packets :
    List (List ℕ) → List (List (List ℕ)) → List (List ℕ) → Option (List (List ℕ))
wait_for_packets received_packets [] late =
    if enough received_packets then some (listen received_packets late) else none
wait_for_packets received_packets (second ∷ seconds) late =
    let rest = wait_for_packets (listen received_packets second) seconds late in
    if enough received_packets then some (listen received_packets late) else rest

-- `dump_to_file`: serde_json's text of the packets is a parameter; a file that cannot be made or written is
-- a panic.
unfoldable pub dump_to_file :
    Os → (List (List ℕ) → Option (List ℕ)) → List (List ℕ) → Disk → OnDisk ⊥ (Unit {0})
dump_to_file os to_string packets disk =
    let (created, file) = create_file os packets_path disk in
    let json = to_string packets in
    elim file [
      | err e ↦ (created, panicked)
      | panicked ↦ (created, panicked)
      | ok done ↦ elim json [
        | none ↦ (created, panicked)
        | some as_json ↦
            let (written, result) = write_all os packets_path as_json created in
            elim result [
              | ok done ↦ (written, ok tt)
              | err e ↦ (written, panicked)
              | panicked ↦ (written, panicked)
            ]
      ]
    ]

-- The whole of `run_listener_with_save` behind the socket: what it leaves on the disk, or none while it
-- still waits after the given seconds.
unfoldable pub run_listener_with_save :
    Os
    → (List (List ℕ) → Option (List ℕ))
    → List (List (List ℕ))
    → List (List ℕ)
    → Disk
    → Option (OnDisk ⊥ (Unit {0}))
run_listener_with_save os to_string seconds late disk = elim (wait_for_packets [] seconds late) [
  | none ↦ none
  | some packets ↦ some (dump_to_file os to_string packets disk)
]

-- One round of the loop over `sig_rx`, at a time.
unfoldable pub stamp_sig : Bool → Option (List (ℕ × ℕ)) → ℕ × ℕ → Option (List (ℕ × ℕ))
stamp_sig benchmark none (timestamp, sig) = none
stamp_sig benchmark (some shreds_sigs) (timestamp, sig) =
    if benchmark then some (shreds_sigs ++ ((timestamp, sig) ∷ [])) else some shreds_sigs

-- The loop: each signature of the channel with the time at which it is received.
unfoldable pub stamp_sigs : Bool → Option (List (ℕ × ℕ)) → List (ℕ × ℕ) → Option (List (ℕ × ℕ))
unfolding stamp_sig
stamp_sigs benchmark shreds_sigs [] = shreds_sigs
stamp_sigs benchmark shreds_sigs (signed ∷ rest) =
    stamp_sigs benchmark (stamp_sig benchmark shreds_sigs signed) rest
