-- ===== src/Sample.antt =====
-- A concrete ledger, entries of one byte, and raw shreds laid out as the offsets of src/shred.rs say.
-- They are test data: the interfaces of the other modules are met by them.
use shreds.Base.{
  All, List, Option, Outcome, [], arith, drop, err, false, get_elem?, if◌then◌else◌, leb, length,
  ltb, map, min, nat_beq, nat_eq, none, ok, pair_eq, panicked, refl, some, suc, take, zero, ℕ, ◌%◌,
  ◌&&◌, ◌*◌, ◌++◌, ◌+◌, ◌-◌, ◌/◌, ◌<◌, ◌==◌, ◌∷◌, ◌≡◌, ◌≢◌,
}
use native.Mathlib.Nat.{div-mul-le_self, lt-div-mul-add}
use shreds.Raydium.Swap.{AmmMath, DividesUp, RaydiumAmmPool}
use shreds.Transaction.{VersionedTransaction}
use shreds.Arb.Pools.{PoolsState}
use shreds.Arb.Entries.{Programs}
use shreds.Base.Words.{u64_mod}
use shreds.Ledger.{
  Ledger, ShredType, code, data_type, Error, invalid_shred_variant, IsDocumented, NeverPanics,
  KeepsHeaders, HasHeader,
}
use shreds.Processor.State.{Host, RawShreds}

abbrev pub replicate : ℕ → ℕ → List ℕ
replicate zero x = []
replicate (suc n) x = x ∷ replicate n x

-- Little-endian words, written out for the test data.
abbrev pub word : ℕ → ℕ → List ℕ
word zero n = []
word (suc k) n = n % 256 ∷ word k (n / 256)

abbrev pub number : List ℕ → ℕ
number [] = 0
number (b ∷ bs) = b + 256 * number bs

-- Signature, variant, slot, index, version and FEC set index; then the rest of the header.
abbrev pub raw_shred : ℕ → ℕ → ℕ → ℕ → List ℕ → List ℕ
raw_shred variant slot index fec_index rest =
    replicate 64 0
    ++ (variant ∷ (word 8 slot ++ (word 4 index ++ (0 ∷ 0 ∷ (word 4 fec_index ++ rest)))))

abbrev pub data_shred : ℕ → ℕ → ℕ → ℕ → List ℕ → List ℕ
data_shred slot index fec_index flags bytes =
    raw_shred 0x80 slot index fec_index (0 ∷ 0 ∷ flags ∷ (word 2 (0x58 + length bytes) ++ bytes))

abbrev pub coding_shred : ℕ → ℕ → ℕ → ℕ → ℕ → List ℕ
coding_shred slot index fec_index num_data num_coding =
    raw_shred 0x40 slot index fec_index (word 2 num_data ++ (word 2 num_coding ++ word 2 0))

abbrev pub byte_or_zero : Option ℕ → ℕ
byte_or_zero none = 0
byte_or_zero (some b) = b

abbrev pub field : List ℕ → ℕ → ℕ → ℕ
field raw from k = number (take k (drop from raw))

abbrev pub type_bytes : ShredType → ℕ
type_bytes code = 0x5a
type_bytes data_type = 0xa5

abbrev pub parse : List ℕ → Outcome Error (List ℕ)
parse raw =
    if leb 0x58 (length raw) && ltb (length raw) u64_mod then ok raw else err invalid_shred_variant

-- A shred is its payload, and an id is a slot and an index. Nothing can be recovered.
abbrev pub ledger : Ledger (List ℕ) (ℕ × ℕ)
ledger = record {
  type_byte = type_bytes;
  signature_bytes = 64;
  flags_from_bits = some;
  flags_contains = λ flags mask. nat_beq flags mask;
  last_shred_in_slot = 0xc0;
  data_complete_shred = 0x40;
  new_from_serialized_shred = parse;
  payload = λ raw. raw;
  slot = λ raw. field raw 0x41 8;
  index = λ raw. field raw 0x49 4;
  is_data = λ raw. leb 128 (byte_or_zero (get_elem? raw 64));
  is_code = λ raw. ltb (byte_or_zero (get_elem? raw 64)) 128;
  data_complete = λ raw. nat_beq (byte_or_zero (get_elem? raw 0x55)) 0x40;
  last_in_slot = λ raw. nat_beq (byte_or_zero (get_elem? raw 0x55)) 0xc0;
  try_recovery = λ shreds. ok [];
  get_shred_id = λ raw. some (field raw 0x41 8, field raw 0x49 4);
  id_slot = λ id. id.0;
  id_eq = pair_eq;
}

pub ledger-IsDocumented : IsDocumented ledger
ledger-IsDocumented = record { code_byte = refl; data_byte = refl; signature_length = refl }

parse-ne-panicked : (raw : List ℕ) → parse raw ≢ panicked
parse-ne-panicked raw h = ground arith

pub ledger-NeverPanics : NeverPanics ledger
ledger-NeverPanics = record { parses = parse-ne-panicked; recovers = λ shreds h. cc }

parse_header : (raw shred : List ℕ) → parse raw ≡ ok shred → HasHeader shred
parse_header raw shred h = ground arith

no_recovery :
    (shreds recovered : List (List ℕ))
    → ◌≡◌ {A = Outcome Error (List (List ℕ))} (ok []) (ok recovered)
    → All HasHeader recovered
no_recovery shreds [] h = tt
no_recovery shreds (shred ∷ recovered) h = absurd (ground arith)

pub ledger-KeepsHeaders : KeepsHeaders ledger
ledger-KeepsHeaders = record { parsed_header = parse_header; recovered_headers = no_recovery }

-- One byte is one entry.
abbrev pub read_byte : List ℕ → Option ℕ × List ℕ
read_byte [] = (none, [])
read_byte (b ∷ bytes) = (some b, bytes)

abbrev pub encode_byte : ℕ → List ℕ
encode_byte b = b ∷ []

abbrev pub stored : RawShreds → List (List ℕ)
stored = map (λ e. e.1)

abbrev pub host : Host ℕ
host = record { read_entry = read_byte; tracing = false; values = stored }

-- A batch of two entries in one data shred, and a coding shred that announces it.
abbrev pub batch : List ℕ
batch = word 8 2 ++ (5 ∷ 6 ∷ [])

abbrev pub first_data : List ℕ
first_data = data_shred 7 0 0 0xc0 batch

abbrev pub first_coding : List ℕ
first_coding = coding_shred 7 1 0 1 1

-- A division that rounds up, and a market that gives and takes what it can.
abbrev pub amm_math : AmmMath
amm_math = record {
  checked_ceil_div = λ a b. if b == 0 then none else some ((a + b - 1) / b, b);
  swap_token_amount_base_in = λ amount pc coin direction. ok (min amount pc);
  swap_token_amount_base_out = λ amount pc coin direction. ok amount;
}

ceil_lt : (a b : ℕ) → 0 < b → (a + b - 1) / b * b < a + b
ceil_lt a b pos = omega (arith, div-mul-le_self (a + b - 1) b)

lt_ceil : (a b : ℕ) → 0 < b → a < (a + b - 1) / b * b + b
lt_ceil a b pos = omega (arith, lt-div-mul-add {a = a + b - 1} pos)

pub amm_math-DividesUp : DividesUp amm_math
amm_math-DividesUp = record {
  quotient = λ a b pos. ((a + b - 1) / b, b, ground arith, ceil_lt a b pos, lt_ceil a b pos);
}

abbrev pub pool : RaydiumAmmPool
pool = record {
  token = 30;
  amm_keys = record {
    amm_pool = 10;
    amm_coin_mint = 30;
    amm_pc_mint = 31;
    amm_authority = 13;
    amm_target = 14;
    amm_coin_vault = 11;
    amm_pc_vault = 12;
    amm_lp_mint = 32;
    amm_open_order = 15;
    market_program = 16;
    market = 17;
    nonce = 0;
  };
  state = record {
    pool_pc_vault_amount = 9000;
    pool_coin_vault_amount = 500;
    swap_fee_numerator = 25;
    swap_fee_denominator = 10000;
  };
  decimals = record { coin_decimals = 1; pc_decimals = 2; lp_decimals = 0 };
}

abbrev pub pools_state : PoolsState
pools_state = record {
  raydium_cp_count = 0;
  raydium_amm_count = 4;
  orca_count = 0;
  orca_token_to_pool = [];
  raydium_pools = (10, pool) ∷ [];
  raydium_pools_by_mint = (30, 10 ∷ []) ∷ [];
  raydium_pool_ids = [];
  signatures = [];
}

-- The keys of the programs, and a transaction that swaps exactly 100 coins.
abbrev pub programs : Programs
programs = record { whirlpool = 90; raydium_cp = 91; raydium_amm = 92 }

abbrev pub swap_tx : VersionedTransaction
swap_tx = record {
  signatures = 77 ∷ [];
  message = record {
    is_v0 = false;
    static_account_keys = 92 ∷ 10 ∷ 11 ∷ 12 ∷ [];
    instructions =
        record {
          program_id_index = 0;
          accounts = 0 ∷ 1 ∷ 0 ∷ 0 ∷ 0 ∷ 2 ∷ 3 ∷ [];
          instruction_data =
              9 ∷ 100 ∷ 0 ∷ 0 ∷ 0 ∷ 0 ∷ 0 ∷ 0 ∷ 0 ∷ 90 ∷ 0 ∷ 0 ∷ 0 ∷ 0 ∷ 0 ∷ 0 ∷ 0 ∷ [];
        }
        ∷ [];
  };
}

-- The pool after that swap.
abbrev pub pool_after : RaydiumAmmPool
pool_after = record pool {
  state = record pool.state { pool_pc_vault_amount = 9099; pool_coin_vault_amount = 400 };
}

abbrev pub pools_state_after : PoolsState
pools_state_after = record pools_state { raydium_pools = (10, pool_after) ∷ [] }
