-- ===== src/Logger.antt =====
-- src/logger.rs: where log lines go, and the file that is made for them.
use shreds.Base.{
  ℕ, ltb, string_eq, if◌then◌else◌, Option, none, some, List, String, ◌++◌, take, length, Outcome,
  ok, panicked,
}
use shreds.Base.Assoc.{lookup, insert}
use shreds.Disk.{Disk, Os, IoError, OnDisk, create_file, and_then, contents}

pub data Target : Type 0 where
  to_file : Target
  to_stdout : Target

abbrev pub log_path : String
log_path = "shreds.log"

-- The logger that `init` installs: the target of `env_logger::Builder`.
unfoldable pub setup : Os → Target → Disk → OnDisk IoError Target
setup os target disk =
    and_then (λ e. e) (create_file os log_path disk) (λ next done. (next, ok target))

-- A line that is logged: the text of the line is the caller's.
unfoldable pub log_line : Target → List ℕ → Disk × List ℕ → Disk × List ℕ
log_line to_file line (disk, stdout) =
    (insert log_path (contents (lookup log_path disk) ++ line) disk, stdout)
log_line to_stdout line (disk, stdout) = (disk, stdout ++ line)

-- The bytes that the random device gives, if it opens.
unfoldable pub grab_random_bytes : Option (List ℕ) → Outcome ⊥ (List ℕ)
grab_random_bytes none = panicked
grab_random_bytes (some device) = if ltb (length device) 5 then panicked else ok (take 5 device)
