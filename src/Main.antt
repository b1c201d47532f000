-- ===== src/Main.antt =====
-- src/main.rs and src/app.rs: the command line, and what each command starts.
pub mod Opens
pub mod Start
mod Examples
use shreds.Base.{
  ℕ, Bool, true, false, not, ◌==◌, string_eq, ◌<>◌, if◌then◌else◌, Option, none, some, List, [],
  String, Outcome, ok, err, panicked, or_panic, guard, ◌>>=◌,
}
use shreds.Disk.{Disk, Os, IoError, OnDisk, and_then}
use shreds.Logger.{Target, to_file, to_stdout, setup as setup_logger}
use shreds.Raydium.Download.{DownloadError, Response, download_raydium_json, load_raydium_json}
use shreds.Service.{
  Mode, arb_mode, pump_mode, graduates_mode, Setup, EntryProcessor, Service, started,
  run as start_mode,
}

-- The defaults are those of the attributes; `clap` fills them in.
pub record Args : Type 0 where
  pub bind : Option String
  pub post_url : Option String
  pub log_target : Option String

abbrev pub default_args : Args
default_args = record {
  bind = some "0.0.0.0:8001";
  post_url = some "http://0.0.0.0:6969";
  log_target = some "stdout";
}

pub data Command : Type 0 where
  save download benchmark pubsub pump_command arb_command graduates_command : Command

pub record App : Type 0 where
  pub args : Args
  pub command : Command

-- What the outside answers: `client.get(url).send()` gives whether the status is a success, or fails;
-- `Url::parse` and `UdpSocket::bind` accept a text or do not; and the server of raydium.json.
pub record Outside : Type 0 where
  pub get_status : String → Option Bool
  pub parses_url : String → Bool
  pub binds : String → Bool
  pub raydium_response : Option Response

-- The errors that `main` returns.
pub data Failure : Type 0 where
  log_failure : IoError → Failure
  failed_health_check : Failure
  invalid_url : Failure
  download_failure : DownloadError → Failure

-- `expect` on an address that must be bound.
abbrev pub bound : Bool → Outcome Failure (Unit {0})
bound is_bound = if is_bound then ok tt else panicked

-- `PoolsState::initialize` reads the file through `RAYDIUM_JSON`.
abbrev pub on_disk : (setup : Setup) → setup.json.Value → Setup
on_disk setup raydium_json = record {
  math = setup.math;
  programs = setup.programs;
  borsh = setup.borsh;
  graduate_programs = setup.graduate_programs;
  json = setup.json;
  chain = setup.chain;
  raydium_json = raydium_json;
}

module _ (outside : Outside) where
  unfoldable pub health_check : String → Outcome Failure (Unit {0})
  health_check post_url = or_panic (outside.get_status (post_url <> "/healthz")) >>= λ is_success.
      guard is_success failed_health_check

  -- Up to the start of the tasks: `service::run`.
  unfoldable pub open_service : String → String → Outcome Failure (Unit {0})
  open_service bind post_url =
      guard (outside.parses_url post_url) invalid_url >>= λ parsed. bound (outside.binds bind)

  -- The entry processor of a mode, which in arb mode begins with the file.
  unfoldable pub start_on_disk :
      (setup : Setup) → (List ℕ → Option setup.json.Value) → Disk → Mode → Outcome ⊥ EntryProcessor
  start_on_disk setup from_str disk arb_mode = load_raydium_json from_str disk >>= λ raydium_json.
      start_mode (on_disk setup raydium_json) arb_mode
  start_on_disk setup from_str disk pump_mode = start_mode setup pump_mode
  start_on_disk setup from_str disk graduates_mode = start_mode setup graduates_mode

-- What is running when `main` waits, or has been done when it returns.
pub data Task (ShredId Entry : Type 0) : Type 0 where
  saves_on : String → Task ShredId Entry
  downloaded : Task ShredId Entry
  benchmarks_on : String → Task ShredId Entry
  listens_pubsub : Task ShredId Entry
  serves : Mode → Service ShredId Entry EntryProcessor → Task ShredId Entry

abbrev pub target_of : String → Outcome Failure Target
target_of log_target =
    if log_target == "file"
    then ok to_file
    else if log_target == "stdout"
    then ok to_stdout
    else panicked

module _ {ShredId Entry : Type 0} (os : Os) (outside : Outside) (setup : Setup)
    (from_str : List ℕ → Option setup.json.Value) where
  -- The service of a mode, with its tasks at their start.
  unfoldable pub serve : Mode → String → String → Disk → Outcome Failure (Task ShredId Entry)
  serve mode bind post_url disk = open_service outside bind post_url >>= λ opened.
      ok (serves mode (started (start_on_disk outside setup from_str disk mode)))

  -- The `match app.command`.
  unfoldable pub run_command : Args → Command → Disk → OnDisk Failure (Task ShredId Entry)
  run_command args save disk = (
    disk,
    or_panic args.bind >>= λ bind. bound (outside.binds bind) >>= λ opened. ok (saves_on bind),
  )
  run_command args download disk =
      and_then download_failure (download_raydium_json os true outside.raydium_response disk)
        (λ next done. (next, ok downloaded))
  run_command args benchmark disk = (disk, or_panic args.bind >>= λ bind. ok (benchmarks_on bind))
  run_command args pubsub disk = (disk, ok listens_pubsub)
  run_command args arb_command disk = (
    disk,
    or_panic args.bind >>= λ bind. or_panic args.post_url >>= λ post.
        health_check outside post >>= λ healthy. serve arb_mode bind post disk,
  )
  run_command args pump_command disk = (
    disk,
    or_panic args.bind >>= λ bind. or_panic args.post_url >>= λ post.
        health_check outside post >>= λ healthy. serve pump_mode bind post disk,
  )
  run_command args graduates_command disk = (
    disk,
    or_panic args.bind >>= λ bind.
        or_panic args.post_url >>= λ post. serve graduates_mode bind post disk,
  )

  unfoldable pub main : App → Disk → OnDisk Failure (Task ShredId Entry)
  main app disk =
      and_then (λ e. e) (disk, (or_panic app.args.log_target >>= target_of))
        (λ same target.
          and_then log_failure (setup_logger os target same)
            (λ logged done. run_command app.args app.command logged))
