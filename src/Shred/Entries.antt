-- ===== src/Shred/Entries.antt =====
-- src/shred.rs: `deserialize_entries`, over the reader of one entry that bincode gives.
pub mod Decode
use shreds.Base.{
  ℕ, zero, suc, Bool, ◌&&◌, if◌then◌else◌, ltb, Option, none, some, List, [], ◌∷◌, ◌++◌, take, drop,
  length, Outcome, ok, err, panicked,
}
use shreds.Base.Bytes.{le_bytes}

-- The error text names the count.
pub data EntriesError : Type 0 where
  entry_count : ℕ → EntriesError

abbrev pub max_entries : ℕ
max_entries = 10_000

-- `read_entry` is `bincode::deserialize_from::<_, Entry>`: the entry, if the bytes hold one, and the
-- bytes behind the cursor, which moves also when the read fails.
module _ {Entry : Type 0} (read_entry : List ℕ → Option Entry × List ℕ) where
  abbrev pub push : List Entry → Option Entry → List Entry
  push entries none = entries
  push entries (some entry) = entries ++ (entry ∷ [])

  -- `for i in 0..entry_count`: a read that fails is logged, and the loop goes on.
  unfoldable pub read_entries : ℕ → List ℕ → List Entry → List Entry
  read_entries zero cursor entries = entries
  read_entries (suc n) cursor entries =
      let (entry, rest) = read_entry cursor in read_entries n rest (push entries entry)

  -- `tracing` says whether trace messages are formatted; one of them takes `&payload[..16]`.
  unfoldable pub deserialize_entries : Bool → List ℕ → Outcome EntriesError (List Entry)
  unfolding read_entries le_bytes
  deserialize_entries tracing payload =
      let count = le_bytes (take 8 payload) in
      if ltb (length payload) 8
      then ok []
      else if ltb max_entries count
      then err (entry_count count)
      else if tracing && ltb (length payload) 16
      then panicked
      else ok (read_entries count (drop 8 payload) [])
