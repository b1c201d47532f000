-- ===== src/Shred/Payload.antt =====
-- src/shred.rs: the data that a shred carries, and the data of several shreds joined.
pub mod Join
use shreds.Base.{
  ℕ, ◌+◌, ◌-◌, Bool, if◌then◌else◌, ltb, List, [], ◌∷◌, ◌++◌, get_elem?, length, Outcome, ok, err,
  panicked, or_panic, ◌>>=◌,
}
use shreds.Base.Bytes.{slice, le_bytes}
use shreds.Base.Words.{saturating_add}
use shreds.Ledger.{Ledger, Error, invalid_payload_size, invalid_shred_variant}
use shreds.Variant.{ShredVariant, legacy_code, legacy_data, merkle_code, merkle_data, try_from}

-- Where the data of a payload starts, and how long it is: the `match variant` of `shred_data`.
unfoldable pub data_range : ShredVariant → List ℕ → Outcome Error (ℕ × ℕ)
unfolding le_bytes
data_range (merkle_data proof_size chained resigned) payload = do
  low ← or_panic (get_elem? payload 0x56)
  high ← or_panic (get_elem? payload 0x57)
  ok (0x58, le_bytes (low ∷ high ∷ []) - 0x58)
data_range legacy_data payload = ok (0x56, length payload - 0x56)
data_range legacy_code payload = err invalid_shred_variant
data_range (merkle_code proof_size chained resigned) payload = err invalid_shred_variant

module _ {Shred ShredId : Type 0} (l : Ledger Shred ShredId) where
  unfoldable pub shred_data : Shred → Outcome Error (List ℕ)
  shred_data shred = do
    byte ← or_panic (get_elem? (l.payload shred) l.signature_bytes)
    variant ← try_from l.type_byte byte
    (data_start, size) ← data_range variant (l.payload shred)
    let data_end = saturating_add data_start size
    if ltb (length (l.payload shred)) data_end
        then err (invalid_payload_size (length (l.payload shred)))
        else slice (l.payload shred) data_start data_end

  -- One step of the `flat_map`: `unwrap_or_default` makes an error no data. A panic goes on.
  unfoldable pub join_data :
      Outcome Error (List ℕ) → Outcome Error (List ℕ) → Outcome Error (List ℕ)
  join_data (ok data_bytes) rest = do bytes ← rest; ok (data_bytes ++ bytes)
  join_data (err e) rest = rest
  join_data panicked rest = panicked

  unfoldable pub deshred : List Shred → Outcome Error (List ℕ)
  unfolding join_data
  deshred [] = ok []
  deshred (shred ∷ shreds) = join_data (shred_data shred) (deshred shreds)
