-- ===== src/Raydium/Download.antt =====
-- src/raydium.rs: `download_raydium_json`, and `RAYDIUM_JSON`, which reads the file.
pub mod Written
use shreds.Base.{
  ℕ, Bool, true, false, not, ◌&&◌, string_eq, if◌then◌else◌, Option, none, some, List, String, [],
  ◌∷◌, Outcome, ok, err, panicked, or_panic, ◌>>=◌,
}
use shreds.Base.Assoc.{lookup}
use shreds.Disk.{Disk, Os, IoError, OnDisk, create_file, write_all, and_then, exists}

abbrev pub raydium_path : String
raydium_path = "raydium.json"

pub data DownloadError : Type 0 where
  not_sent : DownloadError
  broken_stream : DownloadError
  io : IoError → DownloadError

-- The answer of the server: the length that it announces, and the stream of its bytes, in which an
-- item may be an error. The length and the count of the bytes, `downloaded`, are what the progress bar
-- shows, and go nowhere else.
pub record Response : Type 0 where
  pub content_length : Option ℕ
  pub bytes_stream : List (Option (List ℕ))

module _ (os : Os) where
  -- The loop over the stream, less the progress bar.
  unfoldable pub download_loop : List (Option (List ℕ)) → Disk → OnDisk DownloadError (Unit {0})
  download_loop [] disk = (disk, ok tt)
  download_loop (none ∷ stream) disk = (disk, err broken_stream)
  download_loop (some chunk ∷ stream) disk =
      and_then io (write_all os raydium_path chunk disk) (λ next done. download_loop stream next)

  -- The file is created when the answer is there, and before its bytes are.
  unfoldable pub fetch : Option Response → Disk → OnDisk DownloadError (Unit {0})
  fetch none disk = (disk, err not_sent)
  fetch (some response) disk =
      and_then io (create_file os raydium_path disk)
        (λ next done. download_loop response.bytes_stream next)

  -- `client.get(url).send()` is `none` where the request fails.
  unfoldable pub download_raydium_json :
      Bool → Option Response → Disk → OnDisk DownloadError (Unit {0})
  download_raydium_json update response disk =
      if exists (lookup raydium_path disk) && not update then (disk, ok tt) else fetch response disk

-- `RAYDIUM_JSON`: serde_json's reader of the bytes as a text is a parameter.
unfoldable pub load_raydium_json :
    {Value : Type 0} → (List ℕ → Option Value) → Disk → Outcome ⊥ Value
load_raydium_json from_str disk = do
  json_str ← or_panic (lookup raydium_path disk)
  or_panic (from_str json_str)
