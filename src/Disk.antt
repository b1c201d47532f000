-- ===== src/Disk.antt =====
-- The files of the working directory that src/logger.rs, src/listener.rs and src/raydium.rs create, write
-- and read. The file system is not part of the repository: what it refuses is a parameter.
use shreds.Base.{
  ℕ, Bool, true, false, string_eq, if◌then◌else◌, Option, none, some, List, String, [], ◌++◌,
  Outcome, ok, err, panicked,
}
use shreds.Base.Assoc.{lookup, insert}

-- The contents of each file, by its path.
abbrev pub Disk : Type 0
Disk = List (String × List ℕ)

-- Whether `File::create` succeeds on a path, and `write_all` on a path with these bytes.
pub record Os : Type 0 where
  pub creates : String → Bool
  pub writes : String → List ℕ → Bool

-- The operations that failed.
pub data IoError : Type 0 where
  not_created : String → IoError
  not_written : String → IoError

-- What a function with `?` does to the disk: the state is there also when it fails.
abbrev pub OnDisk : Type 0 → Type 0 → Type 0
OnDisk E A = Disk × Outcome E A

abbrev pub contents : Option (List ℕ) → List ℕ
contents none = []
contents (some bytes) = bytes

-- `?` on such a call: the rest goes on with the disk that is left, and an error is converted.
abbrev pub and_then :
    {E F A B : Type 0} → (E → F) → OnDisk E A → (Disk → A → OnDisk F B) → OnDisk F B
and_then into (disk, ok a) rest = rest disk a
and_then into (disk, err e) rest = (disk, err (into e))
and_then into (disk, panicked) rest = (disk, panicked)

-- `File::create`: a file that is there is emptied.
abbrev pub create_file : Os → String → Disk → OnDisk IoError (Unit {0})
create_file os path disk =
    if os.creates path then (insert path [] disk, ok tt) else (disk, err (not_created path))

-- `write_all` on a file that is open, at its end. What a write that fails leaves of its bytes is not
-- looked at again, and is taken to be nothing.
abbrev pub write_all : Os → String → List ℕ → Disk → OnDisk IoError (Unit {0})
write_all os path bytes disk =
    if os.writes path bytes
    then (insert path (contents (lookup path disk) ++ bytes) disk, ok tt)
    else (disk, err (not_written path))

-- `Path::exists`
abbrev pub exists : Option (List ℕ) → Bool
exists none = false
exists (some bytes) = true
