-- ===== src/Shred/Debug.antt =====
-- src/shred.rs: what the two functions that print a shred read of it.
use shreds.Base.{
  ℕ, Bool, ◌==◌, nat_eq, List, [], ◌∷◌, get_elem?, length, select, Outcome, ok, err, panicked,
  or_panic, ◌>>=◌,
}
use shreds.Base.Bytes.{le_bytes}
use shreds.Ledger.{Ledger}
use shreds.Variant.{ShredVariant}
use shreds.Shred.Header.{ShredError, get_shred_data_flags, get_shred_variant}

-- The two bytes of the size in the header.
unfoldable pub size_in_header {κ} : {E : Type κ} → List ℕ → Outcome E ℕ
unfolding le_bytes
size_in_header payload = or_panic (get_elem? payload 0x56) >>= λ low.
    or_panic (get_elem? payload 0x57) >>= λ high. ok (le_bytes (low ∷ high ∷ []))

-- The numbers of the text, in its order.
pub record DebugString : Type 0 where
  pub slot : ℕ
  pub index : ℕ
  pub size : ℕ
  pub block_complete : Bool
  pub batch_complete : Bool
  pub batch_tick : ℕ

pub record DebugShred : Type 0 where
  pub index : ℕ
  pub payload_len : ℕ
  pub size : ℕ
  pub zeros : ℕ
  pub variant : ShredVariant

module _ {Shred ShredId : Type 0} (l : Ledger Shred ShredId) where
  unfoldable pub get_shred_debug_string : Shred → Outcome ShredError DebugString
  unfolding size_in_header
  get_shred_debug_string shred = do
    (block_complete, batch_complete, batch_tick) ← get_shred_data_flags (l.payload shred)
    size ← size_in_header (l.payload shred)
    ok (record {
      slot = l.slot shred;
      index = l.index shred;
      size = size;
      block_complete = block_complete;
      batch_complete = batch_complete;
      batch_tick = batch_tick;
    })

  -- `get_shred_variant(..).expect(..)` is the last argument.
  unfoldable pub debug_shred : Shred → Outcome ShredError DebugShred
  unfolding size_in_header
  debug_shred shred = size_in_header (l.payload shred) >>= λ size.
      elim (get_shred_variant l (l.payload shred)) [
        | err e ↦ panicked
        | panicked ↦ panicked
        | ok variant ↦ ok (record {
          index = l.index shred;
          payload_len = length (l.payload shred);
          size = size;
          zeros = length (select (λ b. b == 0) (l.payload shred));
          variant = variant;
        })
      ]
