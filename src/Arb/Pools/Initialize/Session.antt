-- ===== src/Arb/Pools/Initialize/Session.antt =====
-- A file of four pools, a chain that knows them, and what loading leaves.
use shreds.Base.{ℕ, ◌+◌, ◌*◌, ◌≡◌, refl, nat_eq, Option, none, some, List, [], ◌∷◌, map, ok, arith}
use shreds.Base.Assoc.{lookup, insert}
use shreds.Raydium.Swap.{CalculateResult}
use shreds.Raydium.Json.{
  Json, Amm, Field, un_official, id, base_mint, quote_mint, read_key, read_u8, json_to_amm,
  add_json, parse_raydium_json,
}
use shreds.Arb.Pools.{PoolsState}
use shreds.Arb.Pools.Initialize.{
  Chain, default_state, add_pool, load_pool, load_mint, initialize_raydium_amm_pools,
}
use shreds.Arb.Pools.Initialize.Loads.{AmountsFit}

-- A value is a list of pairs: a file has a pair of mints for each pool, and a pool is such a pair. Every
-- other member is the number 300.
abbrev member : List (ℕ × ℕ) → Field → List (ℕ × ℕ)
member value un_official = value
member [] _ = []
member ((coin, pc) ∷ rest) base_mint = (coin, 0) ∷ []
member ((coin, pc) ∷ rest) quote_mint = (pc, 0) ∷ []
member ((coin, pc) ∷ rest) id = (100 * coin + pc, 0) ∷ []
member ((coin, pc) ∷ rest) _ = (300, 0) ∷ []

abbrev number_of : List (ℕ × ℕ) → Option ℕ
number_of [] = none
number_of ((n, m) ∷ rest) = some n

abbrev pub json : Json
json = record {
  Value = List (ℕ × ℕ);
  Text = ℕ;
  index = member;
  as_str = number_of;
  as_u64 = number_of;
  as_array = λ value. some (map (λ pool. pool ∷ []) value);
  from_str = some;
}

abbrev pub file : List (ℕ × ℕ)
file = (30, 7) ∷ (8, 31) ∷ (30, 31) ∷ (5, 6) ∷ []

abbrev pub pools : List (List (ℕ × ℕ))
pools = map (λ pool. pool ∷ []) file

abbrev amm : ℕ → ℕ → Amm
amm coin pc = (
  record {
    amm_pool = 100 * coin + pc;
    amm_coin_mint = coin;
    amm_pc_mint = pc;
    amm_authority = 300;
    amm_target = 300;
    amm_coin_vault = 300;
    amm_pc_vault = 300;
    amm_lp_mint = 300;
    amm_open_order = 300;
    market_program = 300;
    market = 300;
    nonce = 0;
  },
  record { coin_decimals = 44; pc_decimals = 44; lp_decimals = 44 },
)

abbrev pub by_mint : List (ℕ × List Amm)
by_mint = (30, amm 30 7 ∷ amm 30 31 ∷ []) ∷ (31, amm 8 31 ∷ []) ∷ []

pub parses :
    (mints : List ℕ) → mints ≡ 30 ∷ 31 ∷ 99 ∷ [] → parse_raydium_json json file mints ≡ ok by_mint
unfolding parse_raydium_json add_json read_key json_to_amm read_u8 lookup insert
parses mints e = rw e refl

abbrev amounts : CalculateResult
amounts = record {
  pool_pc_vault_amount = 9000;
  pool_coin_vault_amount = 500;
  swap_fee_numerator = 25;
  swap_fee_denominator = 10000;
}

abbrev pub chain : List ℕ → Chain
chain mints = record {
  MarketPubkeys = ℕ;
  get_keys_for_market = λ program market. some market;
  calculate_pool_vault_amounts = λ program pool amm_keys market_keys payer. some amounts;
  fee_payer = some 1;
  raydium_amm = 92;
  mints_of_interest = mints;
}

pub chain-AmountsFit : (mints : List ℕ) → AmountsFit (chain mints)
chain-AmountsFit mints = record {
  amounts = λ program pool amm_keys market_keys payer state h. ground arith;
}

abbrev pub pools_state : PoolsState
pools_state = record default_state {
  raydium_pools =
      (
        3007,
        record { token = 30; amm_keys = (amm 30 7).0; state = amounts; decimals = (amm 30 7).1 },
      )
      ∷ (
        3031,
        record { token = 30; amm_keys = (amm 30 31).0; state = amounts; decimals = (amm 30 31).1 },
      )
      ∷ (
        831,
        record { token = 31; amm_keys = (amm 8 31).0; state = amounts; decimals = (amm 8 31).1 },
      )
      ∷ [];
  raydium_pools_by_mint = (30, 3007 ∷ 3031 ∷ []) ∷ (31, 831 ∷ []) ∷ [];
}

pub loads :
    initialize_raydium_amm_pools json (chain (30 ∷ 31 ∷ [])) file default_state ≡ ok pools_state
unfolding initialize_raydium_amm_pools parse_raydium_json add_json read_key json_to_amm read_u8
    lookup insert load_mint load_pool add_pool
loads = refl
