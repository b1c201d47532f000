-- ===== src/Main/Examples.antt =====
-- The commands on concrete command lines, and a download in two chunks.
use shreds.Base.{
  ℕ, ◌≡◌, refl, true, false, string_eq, nat_eq, pair_eq, Option, none, some, inr, List, [], ◌∷◌,
  ◌++◌, map, Outcome, ok, err, panicked,
}
use shreds.Base.Assoc.{lookup, insert as insert_key}
use shreds.Sample.{ledger, host, first_data, amm_math, programs}
use shreds.Disk.{Disk, Os}
use shreds.Logger.{setup as setup_logger, log_path}
use shreds.Raydium.Download.{
  raydium_path, Response, broken_stream, download_raydium_json, load_raydium_json,
}
use shreds.Raydium.Download.Written.{
  IsNeeded, download_raydium_json-load, download_raydium_json-breaks,
}
use shreds.Processor.State.{EntriesWithMeta, new}
use shreds.Processor.Session.{half, collects_data}
use shreds.Arb.Pools.Initialize.Session.{json, chain, file}
use shreds.Service.{arb_mode, Setup, EntryProcessor, Service, started, later, start, send_fails}
use shreds.Main.{
  App, default_args, arb_command, Outside, health_check, open_service, start_on_disk, serves, serve,
  run_command, main,
}
use shreds.Main.Start.{ComesUp, main-ComesUp, main-Reach_unloaded}

abbrev os : Os
os = record { creates = λ path. true; writes = λ path bytes. true }

abbrev outside : Outside
outside = record {
  get_status = λ url. some true;
  parses_url = λ url. true;
  binds = λ address. true;
  raydium_response = none;
}

abbrev setup : Setup
setup = record {
  math = amm_math;
  programs = programs;
  borsh = record {
    decode_create = λ bytes. none;
    decode_swap = λ bytes. none;
    to_string = λ sig. sig ∷ [];
    mint_authority = 44;
  };
  graduate_programs = record { pump_migration = 39; raydium_lp = 92 };
  json = json;
  chain = chain (30 ∷ []);
  raydium_json = file;
}

abbrev from_str : List ℕ → Option setup.json.Value
from_str bytes = some file

abbrev arb_app : App
arb_app = record { args = default_args; command = arb_command }

abbrev logged : Disk
logged = (log_path, []) ∷ []

abbrev stopped : Service (ℕ × ℕ) ℕ EntryProcessor
stopped = started panicked

comes_up : main os outside setup from_str arb_app [] ≡ (logged, ok (serves arb_mode stopped))
unfolding main run_command serve health_check open_service start_on_disk setup_logger insert_key
    load_raydium_json lookup
comes_up = refl

main-ComesUp_example : ComesUp os outside setup from_str arb_app [] logged arb_mode stopped
main-ComesUp_example =
    main-ComesUp os outside setup from_str arb_app [] logged arb_mode stopped comes_up

no_file : lookup {V = List ℕ} raydium_path [] ≡ none
unfolding lookup
no_file = refl

abbrev keep : EntryProcessor → EntriesWithMeta ℕ → Outcome ⊥ EntryProcessor
keep self batch = ok self

main-Reach_unloaded_example :
    (main os outside setup from_str arb_app [] ≡ (logged, ok (serves arb_mode stopped)))
    × ((record stopped { shred_processor = half }).entry_processor ≡ panicked)
    × ((record stopped { shred_processor = half }).entry_queue ≡ [])
unfolding new insert_key
main-Reach_unloaded_example =
    main-Reach_unloaded os outside setup from_str ledger host keep default_args "0.0.0.0:8001"
      "http://0.0.0.0:6969" [] (record stopped { shred_processor = half }) (inr refl) refl refl refl
      refl refl refl no_file (later start (send_fails first_data collects_data))

-- The log is the one file before.
abbrev chunks : List (List ℕ)
chunks = (1 ∷ 2 ∷ []) ∷ (3 ∷ []) ∷ []

needed : IsNeeded true logged
unfolding lookup
needed = refl

download_raydium_json-load_example :
    (next : Disk) × (download_raydium_json os true
        (some (record { content_length = some 3; bytes_stream = map some chunks }))
        logged
      ≡ (next, ok tt))
    × (load_raydium_json some next ≡ ok (1 ∷ 2 ∷ 3 ∷ []))
download_raydium_json-load_example =
    download_raydium_json-load os some true (some 3) chunks logged (1 ∷ 2 ∷ 3 ∷ []) needed refl
      (refl, (refl, tt)) refl

download_raydium_json-breaks_example :
    (next : Disk) × (download_raydium_json os true
        (some (record { content_length = some 9; bytes_stream = map some chunks ++ (none ∷ []) }))
        logged
      ≡ (next, err broken_stream))
    × (lookup raydium_path next ≡ some (1 ∷ 2 ∷ 3 ∷ []))
    × ((response : Option Response) → download_raydium_json os false response next ≡ (next, ok tt))
download_raydium_json-breaks_example =
    download_raydium_json-breaks os true (some 9) chunks [] logged needed refl (refl, (refl, tt))
