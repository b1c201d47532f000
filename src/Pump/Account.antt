-- ===== src/Pump/Account.antt =====
-- What an event says of the swaps in its transaction.
use shreds.Base.{
  ℕ, ◌+◌, ◌*◌, ◌%◌, ◌<◌, ◌≤◌, ◌≡◌, refl, ap, ◌∙◌, none, some, List, [], ◌∷◌, ◌++◌, length,
  filter_map, Option-cases, inl, inr, arith,
}
use shreds.Base.Words.{u64_mod}
use shreds.Base.Bytes.{to_le_bytes}
use shreds.Transaction.{CompiledInstruction}
use shreds.Pump.{
  PumpSwapIx, Borsh, ReadsFields, CreatePumpTokenEvent, default_event, deduct_fee, add_swap,
  read_instruction, read_instructions, default_sol_initial_reserves, default_token_initial_reserves,
}

-- For every amount below 2^64 / 100, what is left is the largest number whose 101 hundredths do not
-- exceed the amount.
pub deduct_fee_bounds :
    (sol_amount : ℕ)
    → sol_amount * 100 < u64_mod
    → (101 * deduct_fee sol_amount ≤ 100 * sol_amount)
      × (100 * sol_amount < 101 * (deduct_fee sol_amount + 1))
unfolding deduct_fee
deduct_fee_bounds sol_amount h = omega arith

abbrev pub sum_of : (PumpSwapIx → ℕ) → List PumpSwapIx → ℕ
sum_of f [] = 0
sum_of f (swap ∷ swaps) = f swap + sum_of f swaps

-- An event that has accounted for some swaps more than another.
abbrev pub Accounts : CreatePumpTokenEvent → List PumpSwapIx → CreatePumpTokenEvent → Type 0
Accounts before swaps after =
    (after.dev_bought_amount % u64_mod
      ≡ (before.dev_bought_amount + sum_of (λ s. s.amount) swaps) % u64_mod)
    × (after.dev_max_sol_cost % u64_mod
        ≡ (before.dev_max_sol_cost + sum_of (λ s. s.max_sol_cost) swaps) % u64_mod)
    × (after.num_dev_buy_txs % u64_mod ≡ (before.num_dev_buy_txs + length swaps) % u64_mod)
    × (after.virtual_sol_reserves % u64_mod
        ≡ (before.virtual_sol_reserves + sum_of (λ s. deduct_fee s.max_sol_cost) swaps) % u64_mod)
    × ((after.virtual_token_reserves + sum_of (λ s. s.amount) swaps) % u64_mod
        ≡ before.virtual_token_reserves % u64_mod)

-- The five counts of an event are words.
abbrev pub AreWords : CreatePumpTokenEvent → Type 0
AreWords event =
    (event.dev_bought_amount < u64_mod)
    × (event.dev_max_sol_cost < u64_mod)
    × (event.num_dev_buy_txs < u64_mod)
    × (event.virtual_sol_reserves < u64_mod)
    × (event.virtual_token_reserves < u64_mod)

add_swap-Accounts :
    (event : CreatePumpTokenEvent) (swap : PumpSwapIx)
    → swap.amount < u64_mod
    → Accounts event (swap ∷ []) (add_swap event swap) × AreWords (add_swap event swap)
unfolding add_swap
add_swap-Accounts event swap h = omega arith

Accounts-cons :
    (a b c : CreatePumpTokenEvent) (swap : PumpSwapIx) (swaps : List PumpSwapIx)
    → Accounts a (swap ∷ []) b
    → Accounts b swaps c
    → Accounts a (swap ∷ swaps) c
Accounts-cons a b c swap swaps (p0, p1, p2, p3, p4) (q0, q1, q2, q3, q4) =
    (omega arith, omega arith, omega arith, omega arith, omega arith)

-- The counts of an event that has seen some swaps, from the reserves that a token starts with.
abbrev pub Counts : List PumpSwapIx → CreatePumpTokenEvent → Type 0
Counts swaps event =
    (event.dev_bought_amount ≡ sum_of (λ s. s.amount) swaps % u64_mod)
    × (event.dev_max_sol_cost ≡ sum_of (λ s. s.max_sol_cost) swaps % u64_mod)
    × (event.num_dev_buy_txs ≡ length swaps % u64_mod)
    × (event.virtual_sol_reserves
        ≡ (default_sol_initial_reserves + sum_of (λ s. deduct_fee s.max_sol_cost) swaps) % u64_mod)
    × ((event.virtual_token_reserves + sum_of (λ s. s.amount) swaps) % u64_mod
        ≡ default_token_initial_reserves)

Accounts-Counts :
    (before after : CreatePumpTokenEvent) (swaps : List PumpSwapIx)
    → before.dev_bought_amount ≡ 0
    → before.dev_max_sol_cost ≡ 0
    → before.num_dev_buy_txs ≡ 0
    → before.virtual_sol_reserves ≡ default_sol_initial_reserves
    → before.virtual_token_reserves ≡ default_token_initial_reserves
    → Accounts before swaps after
    → AreWords after
    → Counts swaps after
Accounts-Counts before after swaps e0 e1 e2 e3 e4 (q0, q1, q2, q3, q4) (w0, w1, w2, w3, w4) =
    (omega arith, omega arith, omega arith, omega arith, omega arith)

module _ (borsh : Borsh) (ix : CompiledInstruction) (event : CreatePumpTokenEvent) where
  read_instruction-swap :
      (swap : PumpSwapIx)
      → borsh.decode_swap ix.instruction_data ≡ some swap
      → read_instruction borsh event ix ≡ add_swap event swap
  unfolding read_instruction
  read_instruction-swap swap p = rw (read_instruction, p) refl

  -- An instruction that is no swap changes the three texts at most.
  read_instruction-texts :
      borsh.decode_swap ix.instruction_data ≡ none
      → (name symbol uri : List ℕ) × (read_instruction borsh event ix
          ≡ record event { name = name; symbol = symbol; uri = uri })
  unfolding read_instruction
  read_instruction-texts p = elim (Option-cases (borsh.decode_create ix.instruction_data)) [
    | inl q ↦ (event.name, event.symbol, event.uri, rw (read_instruction, p, q) refl)
    | inr (m, q) ↦ (m.name, m.symbol, m.uri, rw (read_instruction, p, q) refl)
  ]

  read_instruction-keys :
      ((read_instruction borsh event ix).mint ≡ event.mint)
      × ((read_instruction borsh event ix).bounding_curve ≡ event.bounding_curve)
      × ((read_instruction borsh event ix).associated_bounding_curve
          ≡ event.associated_bounding_curve)
  unfolding read_instruction add_swap
  read_instruction-keys = ground arith

module _ (borsh : Borsh) where
  -- The instructions that are taken for swaps.
  abbrev pub swaps_of : List CompiledInstruction → List PumpSwapIx
  swaps_of = filter_map (λ ix. borsh.decode_swap ix.instruction_data)

  -- Nothing but the three texts and the five counts changes.
  pub read_instructions-keys :
      (event : CreatePumpTokenEvent) (ixs : List CompiledInstruction)
      → ((read_instructions borsh event ixs).mint ≡ event.mint)
        × ((read_instructions borsh event ixs).bounding_curve ≡ event.bounding_curve)
        × ((read_instructions borsh event ixs).associated_bounding_curve
            ≡ event.associated_bounding_curve)
  unfolding read_instructions
  read_instructions-keys event [] = (refl, refl, refl)
  read_instructions-keys event (ix ∷ ixs) =
      let (p, q, r) = read_instruction-keys borsh ix event in
      let (p', q', r') = read_instructions-keys (read_instruction borsh event ix) ixs in
      (p' ∙ p, q' ∙ q, r' ∙ r)

module _ (borsh : Borsh) (layout : ReadsFields borsh) where
  read_instructions-Accounts :
      (event : CreatePumpTokenEvent) (ixs : List CompiledInstruction)
      → AreWords event
      → Accounts event (swaps_of borsh ixs) (read_instructions borsh event ixs)
        × AreWords (read_instructions borsh event ixs)
  unfolding read_instructions
  read_instructions-Accounts event [] h = (omega arith, h)
  read_instructions-Accounts event (ix ∷ ixs) h =
      elim (Option-cases (borsh.decode_swap ix.instruction_data)) [
        | inr (swap, p) ↦
            let (step, words) =
              add_swap-Accounts event swap (layout.words ix.instruction_data swap p).0 in
            let (rest, words') = read_instructions-Accounts (add_swap event swap) ixs words in
            rw (read_instructions, filter_map, read_instruction-swap borsh ix event swap p, p)
              (
                Accounts-cons event (add_swap event swap)
                    (read_instructions borsh (add_swap event swap) ixs) swap (swaps_of borsh ixs)
                    step rest,
                words',
              )
        | inl p ↦
            let (name, symbol, uri, e) = read_instruction-texts borsh ix event p in
            rw (read_instructions, filter_map, e, p)
              (read_instructions-Accounts (record event { name = name; symbol = symbol; uri = uri })
                ixs h)
      ]

  -- Whatever the program and the method of an instruction, 24 bytes of data are counted as a purchase of
  -- the amount that the second 8 bytes hold at the cost that the last 8 hold, and the count of swaps
  -- goes up by one.
  pub read_instruction-Accounts :
      (event : CreatePumpTokenEvent) (ix : CompiledInstruction) (method_id : List ℕ)
      (amount max_sol_cost : ℕ)
      → length method_id ≡ 8
      → amount < u64_mod
      → max_sol_cost < u64_mod
      → ix.instruction_data ≡ method_id ++ (to_le_bytes 8 amount ++ to_le_bytes 8 max_sol_cost)
      → Accounts event
          (record { method_id = method_id; amount = amount; max_sol_cost = max_sol_cost } ∷ [])
          (read_instruction borsh event ix)
  read_instruction-Accounts event ix method_id amount max_sol_cost len a c holds =
      let swap : PumpSwapIx = record {
        method_id = method_id;
        amount = amount;
        max_sol_cost = max_sol_cost;
      } in
      rw
        (read_instruction-swap borsh ix event swap
          (ap borsh.decode_swap holds ∙ layout.reads method_id amount max_sol_cost len a c))
        (add_swap-Accounts event swap a).0

  -- The event of a transaction, before its signature and slot are set.
  pub read_instructions-Counts :
      (mint bounding_curve associated_bounding_curve : ℕ) (ixs : List CompiledInstruction)
      → Counts (swaps_of borsh ixs) (
          read_instructions borsh
            (record default_event {
              mint = mint;
              bounding_curve = bounding_curve;
              associated_bounding_curve = associated_bounding_curve;
            })
            ixs)
  read_instructions-Counts mint bounding_curve associated_bounding_curve ixs =
      let event : CreatePumpTokenEvent = record default_event {
        mint = mint;
        bounding_curve = bounding_curve;
        associated_bounding_curve = associated_bounding_curve;
      } in
      let (counted, words) = read_instructions-Accounts event ixs (omega arith) in
      Accounts-Counts event (read_instructions borsh event ixs) (swaps_of borsh ixs) refl refl refl
        refl refl counted words
