-- ===== src/Raydium/Download/Written.antt =====
-- What a download leaves in the file, and what is read back from it.
use mathlib.Core.List.{append-nil, append_assoc}
use shreds.Base.{
  ℕ, ◌≡◌, refl, ap, sym, ◌∙◌, Bool, true, false, not, ◌&&◌, string_eq, All, Option, none, some,
  List, [], ◌∷◌, ◌++◌, map, flat_map, ok, err,
}
use shreds.Base.Assoc.{lookup, insert, lookup-insert_self}
use shreds.Disk.{Disk, Os, write_all, exists}
use shreds.Raydium.Download.{
  raydium_path, broken_stream, Response, download_loop, fetch, download_raydium_json,
  load_raydium_json,
}

-- The bytes of some chunks.
abbrev pub joined : List (List ℕ) → List ℕ
joined = flat_map (λ chunk. chunk)

-- The download is not skipped.
abbrev pub IsNeeded : Bool → Disk → Type 0
IsNeeded update disk = (exists (lookup raydium_path disk) && not update) ≡ false

module _ (os : Os) where
  -- The file can be created, and each chunk can be written to it.
  abbrev pub TakesAll : List (List ℕ) → Type 0
  TakesAll = All (λ chunk. os.writes raydium_path chunk ≡ true)

  write_ok :
      (chunk have : List ℕ) (disk : Disk)
      → os.writes raydium_path chunk ≡ true
      → lookup raydium_path disk ≡ some have
      → write_all os raydium_path chunk disk ≡ (insert raydium_path (have ++ chunk) disk, ok tt)
  write_ok chunk have disk w h = rw (w, h) refl

  -- The chunks before an error or the end are in the file, behind what it had.
  download_loop-chunks :
      (chunks : List (List ℕ)) (rest : List (Option (List ℕ))) (have : List ℕ) (disk : Disk)
      → TakesAll chunks
      → lookup raydium_path disk ≡ some have
      → (next : Disk) × (download_loop os (map some chunks ++ rest) disk
          ≡ download_loop os rest next)
        × (lookup raydium_path next ≡ some (have ++ joined chunks))
  unfolding download_loop
  download_loop-chunks [] rest have disk takes held =
      (disk, refl, held ∙ ap some (sym (append-nil have)))
  download_loop-chunks (chunk ∷ chunks) rest have disk (w, takes) held =
      let later = insert raydium_path (have ++ chunk) disk in
      let (next, p, q) =
        download_loop-chunks chunks rest (have ++ chunk) later takes
          (lookup-insert_self raydium_path (have ++ chunk) disk) in
      (
        next,
        rw (write_ok chunk have disk w held) p,
        q ∙ ap some (append_assoc have chunk (joined chunks)),
      )

  pub fetched :
      (update : Bool) (length? : Option ℕ) (chunks : List (List ℕ)) (rest : List (Option (List ℕ)))
      (disk : Disk)
      → IsNeeded update disk
      → os.creates raydium_path ≡ true
      → TakesAll chunks
      → (next : Disk) × (download_raydium_json os update
            (some (record { content_length = length?; bytes_stream = map some chunks ++ rest }))
            disk
          ≡ download_loop os rest next)
        × (lookup raydium_path next ≡ some (joined chunks))
  unfolding download_raydium_json fetch
  fetched update length? chunks rest disk needed creates takes =
      let (next, p, q) =
        download_loop-chunks chunks rest [] (insert raydium_path [] disk) takes
          (lookup-insert_self raydium_path [] disk) in
      (next, rw (needed, creates) p, q)

  -- A download that is needed, with a file that can be created and written to, succeeds whatever length
  -- the server announces, and what is then loaded is the value of the bytes of all chunks, in their order.
  pub download_raydium_json-load :
      {Value : Type 0} (from_str : List ℕ → Option Value) (update : Bool) (length? : Option ℕ)
      (chunks : List (List ℕ)) (disk : Disk) (value : Value)
      → IsNeeded update disk
      → os.creates raydium_path ≡ true
      → TakesAll chunks
      → from_str (joined chunks) ≡ some value
      → (next : Disk) × (download_raydium_json os update
            (some (record { content_length = length?; bytes_stream = map some chunks }))
            disk
          ≡ (next, ok tt))
        × (load_raydium_json from_str next ≡ ok value)
  unfolding download_loop load_raydium_json
  download_raydium_json-load from_str update length? chunks disk value needed creates takes reads =
      let (next, p, q) = fetched update length? chunks [] disk needed creates takes in
      (
        next,
        ap
              (λ stream.
                download_raydium_json os update
                  (some (record { content_length = length?; bytes_stream = stream })) disk)
              (sym (append-nil (map some chunks)))
            ∙ p,
        rw (q, reads) refl,
      )

  -- Where the stream breaks behind some chunks, the download returns an error, and the file holds
  -- those chunks, whatever it held before; a download without `update` then takes it for whole and
  -- does nothing, whatever the server would answer.
  pub download_raydium_json-breaks :
      (update : Bool) (length? : Option ℕ) (chunks : List (List ℕ)) (rest : List (Option (List ℕ)))
      (disk : Disk)
      → IsNeeded update disk
      → os.creates raydium_path ≡ true
      → TakesAll chunks
      → (next : Disk) × (download_raydium_json os update
            (some (record {
              content_length = length?;
              bytes_stream = map some chunks ++ (none ∷ rest);
            }))
            disk
          ≡ (next, err broken_stream))
        × (lookup raydium_path next ≡ some (joined chunks))
        × ((response : Option Response)
            → download_raydium_json os false response next ≡ (next, ok tt))
  unfolding download_loop download_raydium_json
  download_raydium_json-breaks update length? chunks rest disk needed creates takes =
      let (next, p, q) = fetched update length? chunks (none ∷ rest) disk needed creates takes in
      (next, p, q, λ response. rw q refl)
