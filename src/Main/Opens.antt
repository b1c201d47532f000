-- ===== src/Main/Opens.antt =====
-- What a command that starts a service has checked.
use shreds.Base.{
  ℕ, ◌≡◌, refl, ap, sym, ◌∙◌, subst, Bool, true, false, string_eq, ◌<>◌, Option, some, List, String,
  Outcome, ok, err, panicked, or_panic, or_panic-eq-ok, >>=-eq-ok, ok-inj, guard, ◌>>=◌,
}
use shreds.Disk.{Disk, Os, OnDisk, and_then}
use shreds.Raydium.Download.{download_raydium_json, DownloadError}
use shreds.Service.{
  Mode, arb_mode, pump_mode, graduates_mode, Setup, EntryProcessor, Service, started,
}
use shreds.Main.{
  Command, save, download, benchmark, pubsub, pump_command, arb_command, graduates_command, Args,
  Outside, Failure, failed_health_check, invalid_url, download_failure, bound, health_check,
  open_service, start_on_disk, Task, saves_on, downloaded, benchmarks_on, listens_pubsub, serves,
  serve, run_command,
}

-- The command of each mode.
abbrev pub command_of : Mode → Command
command_of arb_mode = arb_command
command_of pump_mode = pump_command
command_of graduates_mode = graduates_command

-- What a mode asks of the address to post to.
abbrev pub IsHealthy : Outside → String → Mode → Type 0
IsHealthy outside post_url arb_mode = outside.get_status (post_url <> "/healthz") ≡ some true
IsHealthy outside post_url pump_mode = outside.get_status (post_url <> "/healthz") ≡ some true
IsHealthy outside post_url graduates_mode = Unit

guard-ok :
    {E : Type 0} (b : Bool) (e : E) (u : Unit {0})
    → ◌≡◌ {A = Outcome E (Unit {0})} (guard b e) (ok u)
    → b ≡ true
guard-ok true e u h = refl
guard-ok false e u h = cc

bound-ok : (b : Bool) (u : Unit {0}) → bound b ≡ ok u → b ≡ true
bound-ok true u h = refl
bound-ok false u h = cc

health_check-ok :
    (outside : Outside) (post_url : String) (u : Unit {0})
    → health_check outside post_url ≡ ok u
    → outside.get_status (post_url <> "/healthz") ≡ some true
unfolding health_check
health_check-ok outside post_url u h =
    let (is_success, p, q) =
      >>=-eq-ok (or_panic (outside.get_status (post_url <> "/healthz"))) _ h in
    or_panic-eq-ok {E = Failure} p ∙ ap some (guard-ok is_success failed_health_check u q)

open_service-ok :
    (outside : Outside) (bind post_url : String) (u : Unit {0})
    → open_service outside bind post_url ≡ ok u
    → (outside.parses_url post_url ≡ true) × (outside.binds bind ≡ true)
unfolding open_service
open_service-ok outside bind post_url u h =
    let (parsed, p, q) = >>=-eq-ok (guard (outside.parses_url post_url) invalid_url) _ h in
    (guard-ok _ invalid_url parsed p, bound-ok _ u q)

module _ {ShredId Entry : Type 0} (os : Os) (outside : Outside) (setup : Setup)
    (from_str : List ℕ → Option setup.json.Value) where
  -- The task is a service as it starts, of one of the three modes, on a disk.
  abbrev pub Opens : Args → Command → Disk → Mode → Service ShredId Entry EntryProcessor → Type 0
  Opens args command disk mode s =
      (command ≡ command_of mode)
      × ((bind post_url : String) × (args.bind ≡ some bind)
          × (args.post_url ≡ some post_url)
          × (outside.parses_url post_url ≡ true)
          × (outside.binds bind ≡ true)
          × IsHealthy outside post_url mode)
      × (s ≡ started (start_on_disk outside setup from_str disk mode))

  abbrev service_of :
      Service ShredId Entry EntryProcessor
      → Task ShredId Entry
      → Service ShredId Entry EntryProcessor
  service_of other (saves_on bind) = other
  service_of other downloaded = other
  service_of other (benchmarks_on bind) = other
  service_of other listens_pubsub = other
  service_of other (serves mode s) = s

  abbrev mode_of : Mode → Task ShredId Entry → Mode
  mode_of other (saves_on bind) = other
  mode_of other downloaded = other
  mode_of other (benchmarks_on bind) = other
  mode_of other listens_pubsub = other
  mode_of other (serves mode s) = mode

  serve-ok :
      (mode mode' : Mode) (bind post_url : String) (disk : Disk)
      (s : Service ShredId Entry EntryProcessor)
      → serve os outside setup from_str mode bind post_url disk ≡ ok (serves mode' s)
      → (outside.parses_url post_url ≡ true)
        × (outside.binds bind ≡ true)
        × (mode ≡ mode')
        × (s ≡ started (start_on_disk outside setup from_str disk mode))
  unfolding serve
  serve-ok mode mode' bind post_url disk s h =
      let (u, p, q) = >>=-eq-ok (open_service outside bind post_url) _ h in
      let (parsed, is_bound) = open_service-ok outside bind post_url u p in
      let same = ok-inj {E = Failure} q in
      (parsed, is_bound, ap (mode_of mode) same, sym (ap (service_of s) same))

  -- The command of a mode, from the addresses on.
  opened :
      (args : Args) (mode mode' : Mode) (disk : Disk) (s : Service ShredId Entry EntryProcessor)
      (bind post_url : String)
      → args.bind ≡ some bind
      → args.post_url ≡ some post_url
      → IsHealthy outside post_url mode
      → serve os outside setup from_str mode bind post_url disk ≡ ok (serves mode' s)
      → Opens args (command_of mode) disk mode' s
  opened args mode mode' disk s bind post_url p q healthy h =
      let (parsed, is_bound, same, start) = serve-ok mode mode' bind post_url disk s h in
      (
        ap command_of same,
        (bind, post_url, p, q, parsed, is_bound, subst (IsHealthy outside post_url) same healthy),
        start ∙ ap (λ m. started (start_on_disk outside setup from_str disk m)) same,
      )

  checked :
      (args : Args) (mode mode' : Mode) (disk : Disk) (s : Service ShredId Entry EntryProcessor)
      → ((post_url : String)
          → outside.get_status (post_url <> "/healthz") ≡ some true
          → IsHealthy outside post_url mode)
      → (or_panic args.bind >>= λ bind. or_panic args.post_url >>= λ post.
          health_check outside post >>= λ healthy.
          serve os outside setup from_str mode bind post disk)
        ≡ ok (serves mode' s)
      → Opens args (command_of mode) disk mode' s
  checked args mode mode' disk s heals h =
      let (bind, p, h1) = >>=-eq-ok (or_panic args.bind) _ h in
      let (post, q, h2) = >>=-eq-ok (or_panic args.post_url) _ h1 in
      let (u, r, h3) = >>=-eq-ok (health_check outside post) _ h2 in
      opened args mode mode' disk s bind post (or_panic-eq-ok {E = Failure} p)
        (or_panic-eq-ok {E = Failure} q) (heals post (health_check-ok outside post u r)) h3

  abbrev IsNoService : Task ShredId Entry → Type 0
  IsNoService (saves_on bind) = Unit
  IsNoService downloaded = Unit
  IsNoService (benchmarks_on bind) = Unit
  IsNoService listens_pubsub = Unit
  IsNoService (serves mode s) = ⊥

  no_service :
      (task : Task ShredId Entry) (mode : Mode) (s : Service ShredId Entry EntryProcessor)
      → IsNoService task
      → ¬ (task ≡ serves mode s)
  no_service task mode s other h = subst IsNoService h other

  no_download :
      (r : OnDisk DownloadError (Unit {0})) (next : Disk) (mode : Mode)
      (s : Service ShredId Entry EntryProcessor)
      → ¬ (
          ◌≡◌ {A = OnDisk Failure (Task ShredId Entry)}
            (and_then download_failure r (λ later done. (later, ok downloaded)))
            (next, ok (serves mode s)))
  no_download (disk, ok done) next mode s h =
      no_service downloaded mode s tt (ok-inj {E = Failure} (ap (λ r. r.1) h))
  no_download (disk, err e) next mode s h = cc
  no_download (disk, panicked) next mode s h = cc

  pub run_command-Opens :
      (args : Args) (command : Command) (disk next : Disk) (mode : Mode)
      (s : Service ShredId Entry EntryProcessor)
      → run_command os outside setup from_str args command disk ≡ (next, ok (serves mode s))
      → (next ≡ disk) × Opens args command disk mode s
  unfolding run_command
  run_command-Opens args save disk next mode s h =
      let (bind, p, h1) = >>=-eq-ok (or_panic args.bind) _ (ap (λ r. r.1) h) in
      let (u, q, h2) = >>=-eq-ok (bound (outside.binds bind)) _ h1 in
      absurd (no_service (saves_on bind) mode s tt (ok-inj {E = Failure} h2))
  run_command-Opens args download disk next mode s h =
      absurd
        (no_download (download_raydium_json os true outside.raydium_response disk) next mode s h)
  run_command-Opens args benchmark disk next mode s h =
      let (bind, p, h1) = >>=-eq-ok (or_panic args.bind) _ (ap (λ r. r.1) h) in
      absurd (no_service (benchmarks_on bind) mode s tt (ok-inj {E = Failure} h1))
  run_command-Opens args pubsub disk next mode s h = absurd (cc)
  run_command-Opens args pump_command disk next mode s h = (
    sym (ap (λ r. r.0) h),
    checked args pump_mode mode disk s (λ post healthy. healthy) (ap (λ r. r.1) h),
  )
  run_command-Opens args arb_command disk next mode s h = (
    sym (ap (λ r. r.0) h),
    checked args arb_mode mode disk s (λ post healthy. healthy) (ap (λ r. r.1) h),
  )
  run_command-Opens args graduates_command disk next mode s h =
      let (bind, p, h1) = >>=-eq-ok (or_panic args.bind) _ (ap (λ r. r.1) h) in
      let (post, q, h2) = >>=-eq-ok (or_panic args.post_url) _ h1 in
      (
        sym (ap (λ r. r.0) h),
        opened args graduates_mode mode disk s bind post (or_panic-eq-ok {E = Failure} p)
            (or_panic-eq-ok {E = Failure} q) tt h2,
      )
