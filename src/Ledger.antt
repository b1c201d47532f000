-- ===== src/Ledger.antt =====
-- What the program takes from solana_ledger, solana_sdk and bitflags, which are not part of the
-- repository: an interface over abstract types, and the documented facts that some theorems need.
use shreds.Base.{ℕ, ◌≡◌, ◌≢◌, ◌≤◌, Bool, Option, List, All, Eq, Outcome, ok, panicked, length, ◌<◌}
use shreds.Base.Words.{u64_mod}

-- A payload that reaches to the end of the common header, and is no longer than memory.
abbrev pub HasHeader : List ℕ → Type 0
HasHeader payload = (0x58 ≤ length payload) × (length payload < u64_mod)

-- `solana_ledger::shred::ShredType`
pub data ShredType : Type 0 where
  code data_type : ShredType

-- `solana_ledger::shred::Error`: the two errors that the program builds itself, and any other.
pub data Error : Type 0 where
  invalid_payload_size : ℕ → Error
  invalid_shred_variant : Error
  other : ℕ → Error

-- `Shred` and `ShredId` are the crate's types. `Result` values are `Outcome`s.
pub record Ledger (Shred ShredId : Type 0) : Type 0 where
  pub type_byte : ShredType → ℕ
  pub signature_bytes : ℕ
  pub flags_from_bits : ℕ → Option ℕ
  pub flags_contains : ℕ → ℕ → Bool
  pub last_shred_in_slot : ℕ
  pub data_complete_shred : ℕ
  pub new_from_serialized_shred : List ℕ → Outcome Error Shred
  pub payload : Shred → List ℕ
  pub slot : Shred → ℕ
  pub index : Shred → ℕ
  pub is_data : Shred → Bool
  pub is_code : Shred → Bool
  pub data_complete : Shred → Bool
  pub last_in_slot : Shred → Bool
  pub try_recovery : List Shred → Outcome Error (List Shred)
  pub get_shred_id : List ℕ → Option ShredId
  pub id_slot : ShredId → ℕ
  pub id_eq : Eq ShredId

-- The bytes of the two legacy variants and the length of a signature, as the crates document them.
pub record IsDocumented {Shred ShredId : Type 0} (l : Ledger Shred ShredId) : Type 0 where
  pub code_byte : l.type_byte code ≡ 0x5a
  pub data_byte : l.type_byte data_type ≡ 0xa5
  pub signature_length : l.signature_bytes ≡ 64

-- The crate's parser and its recovery return a `Result`, and do not panic.
pub record NeverPanics {Shred ShredId : Type 0} (l : Ledger Shred ShredId) : Type 0 where
  pub parses : (raw : List ℕ) → l.new_from_serialized_shred raw ≢ panicked
  pub recovers : (shreds : List Shred) → l.try_recovery shreds ≢ panicked

-- A parsed or recovered shred has the payload of a whole shred.
pub record KeepsHeaders {Shred ShredId : Type 0} (l : Ledger Shred ShredId) : Type 0 where
  pub parsed_header :
      (raw : List ℕ) (shred : Shred)
      → l.new_from_serialized_shred raw ≡ ok shred
      → HasHeader (l.payload shred)
  pub recovered_headers :
      (shreds recovered : List Shred)
      → l.try_recovery shreds ≡ ok recovered
      → All (λ shred. HasHeader (l.payload shred)) recovered
