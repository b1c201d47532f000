-- ===== src/Pump/Session.antt =====
-- A concrete reader of the two structs, with texts of one byte, and a sample token.
use shreds.Base.{
  ℕ, ◌%◌, ◌<◌, ◌≡◌, ◌==◌, nat_eq, refl, ◌∙◌, subst, if◌then◌else◌, Option, none, some, List, [],
  ◌∷◌, ◌++◌, take, drop, take-append, drop-append, length, length-append, false, arith,
}
use shreds.Base.Words.{u64_mod}
use shreds.Base.Bytes.{le_bytes, to_le_bytes, length-to_le_bytes, le_bytes-to_le_bytes}
use shreds.Transaction.{CompiledInstruction, VersionedTransaction}
use shreds.Pump.{PumpCreateIx, PumpSwapIx, Borsh, ReadsFields}

abbrev read_swap : List ℕ → Option PumpSwapIx
read_swap bytes =
    if length bytes == 24
    then some (record {
      method_id = take 8 bytes;
      amount = le_bytes (take 8 (drop 8 bytes)) % u64_mod;
      max_sol_cost = le_bytes (drop 8 (drop 8 bytes)) % u64_mod;
    })
    else none

abbrev read_create : List ℕ → Option PumpCreateIx
read_create bytes =
    if length bytes == 23
    then some (record {
      method_id = take 8 bytes;
      name = take 1 (drop 12 bytes);
      symbol = take 1 (drop 17 bytes);
      uri = take 1 (drop 22 bytes);
    })
    else none

abbrev pub borsh : Borsh
borsh = record {
  decode_create = read_create;
  decode_swap = read_swap;
  to_string = λ sig. sig ∷ [];
  mint_authority = 44;
}

take-prefix : {A : Type 0} (n : ℕ) (xs ys : List A) → length xs ≡ n → take n (xs ++ ys) ≡ xs
take-prefix n xs ys e = subst (λ m. take m (xs ++ ys) ≡ xs) e (take-append xs ys)

drop-prefix : {A : Type 0} (n : ℕ) (xs ys : List A) → length xs ≡ n → drop n (xs ++ ys) ≡ ys
drop-prefix n xs ys e = subst (λ m. drop m (xs ++ ys) ≡ ys) e (drop-append xs ys)

words : (amount : ℕ) → amount < u64_mod → le_bytes (to_le_bytes 8 amount) % u64_mod ≡ amount
words amount h = omega (arith, le_bytes-to_le_bytes 8 amount h)

read_swap-length :
    (bytes : List ℕ)
    → length bytes ≡ 24
    → read_swap bytes
      ≡ some (record {
        method_id = take 8 bytes;
        amount = le_bytes (take 8 (drop 8 bytes)) % u64_mod;
        max_sol_cost = le_bytes (drop 8 (drop 8 bytes)) % u64_mod;
      })
read_swap-length bytes h = rw (read_swap, h) refl

read_swap_lem :
    (method_id : List ℕ) (amount max_sol_cost : ℕ)
    → length method_id ≡ 8
    → amount < u64_mod
    → max_sol_cost < u64_mod
    → read_swap (method_id ++ (to_le_bytes 8 amount ++ to_le_bytes 8 max_sol_cost))
      ≡ some (record { method_id = method_id; amount = amount; max_sol_cost = max_sol_cost })
read_swap_lem method_id amount max_sol_cost len a c =
    let first = to_le_bytes 8 amount in
    let second = to_le_bytes 8 max_sol_cost in
    let len8 = length-to_le_bytes 8 amount in
    let len24 : length (method_id ++ (first ++ second)) ≡ 24 = omega (
      arith,
      len,
      length-append method_id (first ++ second),
      length-append first second,
      len8,
      length-to_le_bytes 8 max_sol_cost,
    ) in
    read_swap-length (method_id ++ (first ++ second)) len24
    ∙ rw
        (
          take-prefix 8 method_id (first ++ second) len,
          drop-prefix 8 method_id (first ++ second) len,
          take-prefix 8 first second len8,
          drop-prefix 8 first second len8,
          words amount a,
          words max_sol_cost c,
        )
        refl

read_swap-words :
    (bytes : List ℕ) (swap : PumpSwapIx)
    → read_swap bytes ≡ some swap
    → (swap.amount < u64_mod) × (swap.max_sol_cost < u64_mod)
read_swap-words bytes swap h = ground arith

pub layout : ReadsFields borsh
layout = record { reads = read_swap_lem; words = read_swap-words }

abbrev pub swap_ix : CompiledInstruction
swap_ix = record {
  program_id_index = 5;
  accounts = [];
  instruction_data =
      (1 ∷ 2 ∷ 3 ∷ 4 ∷ 5 ∷ 6 ∷ 7 ∷ 8 ∷ []) ++ (to_le_bytes 8 500 ++ to_le_bytes 8 1010);
}

abbrev create_ix : CompiledInstruction
create_ix = record {
  program_id_index = 2;
  accounts = [];
  instruction_data =
      1 ∷ 2 ∷ 3 ∷ 4 ∷ 5 ∷ 6 ∷ 7 ∷ 8 ∷ 1 ∷ 0 ∷ 0 ∷ 0 ∷ 78 ∷ 1 ∷ 0 ∷ 0 ∷ 0 ∷ 83 ∷ 1 ∷ 0 ∷ 0 ∷ 0 ∷ 85
      ∷ [];
}

abbrev pub pump_tx : VersionedTransaction
pump_tx = record {
  signatures = 77 ∷ [];
  message = record {
    is_v0 = false;
    static_account_keys =
        20 ∷ 21 ∷ 22 ∷ 23 ∷ 24 ∷ 25 ∷ 44 ∷ 27 ∷ 28 ∷ 29 ∷ 30 ∷ 31 ∷ 32 ∷ 33 ∷ 34 ∷ 35 ∷ 36 ∷ 37
        ∷ [];
    instructions = create_ix ∷ swap_ix ∷ [];
  };
}
