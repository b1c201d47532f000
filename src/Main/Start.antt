-- ===== src/Main/Start.antt =====
-- What has happened when a service is running.
use shreds.Base.{
  ℕ, ◌≡◌, ◌⊎◌, refl, ap, sym, ◌∙◌, subst, string_eq, ◌==◌, ◌<>◌, true, or_panic, ◌>>=◌, Option,
  none, some, List, [], String, Outcome, ok, panicked, Bool-cases, Option-cases, Outcome-cases, inl,
  inr, arith,
}
use shreds.Base.Assoc.{lookup, insert, lookup-insert}
use shreds.Disk.{Disk, Os, and_then}
use shreds.Logger.{Target, to_file, to_stdout, setup as setup_logger, log_path}
use shreds.Raydium.Download.{load_raydium_json, raydium_path}
use shreds.Service.{Mode, arb_mode, Setup, EntryProcessor, Service, Reach, started}
use shreds.Service.Run.{Reach-Follows}
use shreds.Main.{
  Args, App, arb_command, Outside, log_failure, health_check, open_service, serve, start_on_disk,
  serves, target_of, run_command, main,
}
use shreds.Ledger.{Ledger}
use shreds.Processor.State.{EntriesWithMeta, Host}
use shreds.Service.Stop.{Reach-Remains}
use shreds.Main.Opens.{Opens, run_command-Opens}

target_of-ok :
    (text : String) (target : Target)
    → target_of text ≡ ok target
    → (text ≡ "file") ⊎ (text ≡ "stdout")
target_of-ok text target h = elim (Bool-cases (text == "file")) [
  | inl file ↦ inl ((string_eq.beq_iff text "file").0 file)
  | inr other ↦ elim (Bool-cases (text == "stdout")) [
    | inl stdout ↦ inr ((string_eq.beq_iff text "stdout").0 stdout)
    | inr neither ↦ absurd (ground (arith, other, neither))
  ]
]

known_target :
    (text? : Option String)
    → (text? ≡ some "file") ⊎ (text? ≡ some "stdout")
    → (target : Target) × ((or_panic text? >>= target_of) ≡ ok target)
known_target text? (inl file) = (to_file, rw file refl)
known_target text? (inr stdout) = (to_stdout, rw stdout refl)

⊎-map : {A B C D : Type 0} → (A → C) → (B → D) → A ⊎ B → C ⊎ D
⊎-map f g (inl a) = inl (f a)
⊎-map f g (inr b) = inr (g b)

-- The file of the pools and that of the log differ.
still_absent :
    (disk : Disk)
    → lookup raydium_path disk ≡ none
    → lookup raydium_path (insert log_path [] disk) ≡ none
still_absent disk absent = lookup-insert log_path raydium_path [] disk ∙ absent

not_loaded :
    (outside : Outside) (setup : Setup) (from_str : List ℕ → Option setup.json.Value) (disk : Disk)
    → lookup raydium_path disk ≡ none
    → start_on_disk outside setup from_str disk arb_mode ≡ panicked
unfolding start_on_disk load_raydium_json
not_loaded outside setup from_str disk absent = rw absent refl

module _ {ShredId Entry : Type 0} (os : Os) (outside : Outside) (setup : Setup)
    (from_str : List ℕ → Option setup.json.Value) where
  -- A service that `main` has brought up: the log target is one of the two, `shreds.log` was made anew,
  -- and the command opened the service.
  abbrev pub ComesUp : App → Disk → Disk → Mode → Service ShredId Entry EntryProcessor → Type 0
  ComesUp app disk next mode s =
      ((app.args.log_target ≡ some "file") ⊎ (app.args.log_target ≡ some "stdout"))
      × (next ≡ insert log_path [] disk)
      × Opens os outside setup from_str app.args app.command next mode s

  logged_on :
      (app : App) (target : Target) (disk next : Disk) (mode : Mode)
      (s : Service ShredId Entry EntryProcessor)
      → and_then log_failure
          (setup_logger os target disk)
          (λ logged done. run_command os outside setup from_str app.args app.command logged)
        ≡ (next, ok (serves mode s))
      → (next ≡ insert log_path [] disk)
        × Opens os outside setup from_str app.args app.command next mode s
  unfolding setup_logger
  logged_on app target disk next mode s h = elim (Bool-cases (os.creates log_path)) [
    | inr fails ↦ absurd (ground (arith, fails))
    | inl creates ↦
        let (same, opens) =
          run_command-Opens os outside setup from_str app.args app.command (insert log_path [] disk)
            next mode s (rw creates at h) in
        (
          same,
          subst (λ d. Opens os outside setup from_str app.args app.command d mode s) (sym same)
              opens,
        )
  ]

  -- If the program brings up a service, the log target was one of the two it knows, `shreds.log` was
  -- emptied, whichever of the two it was, the command was that of the service's mode, the URL was
  -- valid and the address was bound, and the service is that of the mode at its start, on the files
  -- as they are then; for arb and pump the health check of the URL was answered by a success.
  pub main-ComesUp :
      (app : App) (disk next : Disk) (mode : Mode) (s : Service ShredId Entry EntryProcessor)
      → main os outside setup from_str app disk ≡ (next, ok (serves mode s))
      → ComesUp app disk next mode s
  unfolding main run_command
  main-ComesUp app disk next mode s h = elim (Option-cases app.args.log_target) [
    | inl unset ↦ absurd (ground (arith, unset))
    | inr (text, p) ↦ elim (Outcome-cases (target_of text)) [
      | inl (target, q) ↦
          let (same, opens) = logged_on app target disk next mode s (rw (p, q) at h) in
          (
            ⊎-map (λ e. p ∙ ap some e) (λ e. p ∙ ap some e) (target_of-ok text target q),
            same,
            opens,
          )
      | inr (inl (e, q)) ↦ absurd (ground (arith, p, q))
      | inr (inr q) ↦ absurd (ground (arith, p, q))
    ]
  ]

  arb_unloaded :
      (args : Args) (bind post : String) (disk : Disk)
      → args.bind ≡ some bind
      → args.post_url ≡ some post
      → outside.get_status (post <> "/healthz") ≡ some true
      → outside.parses_url post ≡ true
      → outside.binds bind ≡ true
      → lookup raydium_path disk ≡ none
      → run_command os outside setup from_str args arb_command disk
        ≡ (disk, ok (serves arb_mode (started {ShredId = ShredId} {Entry = Entry} panicked)))
  unfolding run_command health_check serve open_service
  arb_unloaded args bind post disk p q healthy parses binds absent =
      rw (p, q, healthy, parses, binds, not_loaded outside setup from_str disk absent) refl

  -- Without `raydium.json` the arb command brings its service up all the same, for a known log target,
  -- with the log file created, the health check passed, the URL valid and the address bound; but in every
  -- state that this service reaches the entry processor has panicked and the channel is empty.
  pub main-Reach_unloaded :
      {Shred : Type 0} (l : Ledger Shred ShredId) (host : Host Entry)
      (process : EntryProcessor → EntriesWithMeta Entry → Outcome ⊥ EntryProcessor) (args : Args)
      (bind post : String) (disk : Disk) (t : Service ShredId Entry EntryProcessor)
      → (args.log_target ≡ some "file") ⊎ (args.log_target ≡ some "stdout")
      → os.creates log_path ≡ true
      → args.bind ≡ some bind
      → args.post_url ≡ some post
      → outside.get_status (post <> "/healthz") ≡ some true
      → outside.parses_url post ≡ true
      → outside.binds bind ≡ true
      → lookup raydium_path disk ≡ none
      → Reach l host process (started panicked) t
      → (main os outside setup from_str (record { args = args; command = arb_command }) disk ≡ (
        insert log_path [] disk,
        ok (serves arb_mode (started {ShredId = ShredId} {Entry = Entry} panicked)),
      ))
        × (t.entry_processor ≡ panicked)
        × (t.entry_queue ≡ [])
  unfolding main setup_logger
  main-Reach_unloaded l host process args bind post disk t known creates p q healthy parses binds
        absent reach =
      let (target, e) = known_target args.log_target known in
      let stays = (Reach-Remains l host process (started panicked) t reach).0 refl in
      (
        rw
            (
              e,
              creates,
              arb_unloaded args bind post (insert log_path [] disk) p q healthy parses binds
                  (still_absent disk absent),
            )
            refl,
        stays,
        (Reach-Follows l host process panicked t reach).closed stays,
      )
