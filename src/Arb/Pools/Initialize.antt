-- ===== src/Arb/Pools/Initialize.antt =====
-- src/raydium.rs and src/arb.rs: `initialize_raydium_amm_pools` and `PoolsState::initialize`.
pub mod Loads
pub mod Missing
pub mod Session
mod Examples
use shreds.Base.{
  ℕ, nat_eq, Option, none, some, List, [], ◌∷◌, ◌++◌, Outcome, ok, err, panicked, or_panic, ◌>>=◌,
  for_each,
}
use shreds.Base.Assoc.{lookup, insert}
use shreds.Raydium.Swap.{AmmKeys, RaydiumDecimals, CalculateResult, RaydiumAmmPool}
use shreds.Raydium.Json.{Json, Amm, parse_raydium_json}
use shreds.Arb.Pools.{PoolsState}

-- What the code takes from raydium_library and a node, from a key file, and from `constants`; a failure is
-- `none`, and `mints_of_interest` is the list of `get_mints_of_interest`.
pub record Chain : Type 1 where
  pub MarketPubkeys : Type 0
  pub get_keys_for_market : ℕ → ℕ → Option MarketPubkeys
  pub calculate_pool_vault_amounts : ℕ → ℕ → AmmKeys → MarketPubkeys → ℕ → Option CalculateResult
  pub fee_payer : Option ℕ
  pub raydium_amm : ℕ
  pub mints_of_interest : List ℕ

-- What the futures yield for each pool.
pub record LoadedPool : Type 0 where
  pub mint : ℕ
  pub amm_keys : AmmKeys
  pub state : CalculateResult
  pub decimals : RaydiumDecimals

abbrev pub or_default : Option (List ℕ) → List ℕ
or_default none = []
or_default (some pools) = pools

-- One round of the loop that updates `pools_state`.
unfoldable pub add_pool : PoolsState → LoadedPool → PoolsState
add_pool pools_state loaded = record pools_state {
  raydium_pools =
      insert loaded.amm_keys.amm_pool
        (record {
          token = loaded.mint;
          amm_keys = loaded.amm_keys;
          state = loaded.state;
          decimals = loaded.decimals;
        })
        pools_state.raydium_pools;
  raydium_pools_by_mint =
      insert loaded.mint
        (or_default (lookup loaded.mint pools_state.raydium_pools_by_mint)
          ++ (loaded.amm_keys.amm_pool ∷ []))
        pools_state.raydium_pools_by_mint;
}

abbrev pub add_pools : PoolsState → List LoadedPool → PoolsState
add_pools pools_state [] = pools_state
add_pools pools_state (loaded ∷ all_results) = add_pools (add_pool pools_state loaded) all_results

-- `PoolsState::default`
abbrev pub default_state : PoolsState
default_state = record {
  raydium_cp_count = 0;
  raydium_amm_count = 0;
  orca_count = 0;
  orca_token_to_pool = [];
  raydium_pools = [];
  raydium_pools_by_mint = [];
  raydium_pool_ids = [];
  signatures = [];
}

module _ (j : Json) (chain : Chain) where
  unfoldable pub load_pool : ℕ → ℕ → Amm → Outcome ⊥ LoadedPool
  load_pool fee_payer mint (amm_keys, decimals) = do
    market_keys ← or_panic (chain.get_keys_for_market amm_keys.market_program amm_keys.market)
    state ← or_panic (
        chain.calculate_pool_vault_amounts chain.raydium_amm amm_keys.amm_pool amm_keys market_keys
          fee_payer)
    ok (record { mint = mint; amm_keys = amm_keys; state = state; decimals = decimals })

  abbrev pub push_loaded : ℕ → ℕ → List LoadedPool → Amm → Outcome ⊥ (List LoadedPool)
  push_loaded fee_payer mint results amm = do
    loaded ← load_pool fee_payer mint amm
    ok (results ++ (loaded ∷ []))

  -- The future of one mint; `unwrap` of a mint that the file does not have panics.
  unfoldable pub load_mint :
      ℕ → List (ℕ × List Amm) → List LoadedPool → ℕ → Outcome ⊥ (List LoadedPool)
  load_mint fee_payer amm_keys_map all_results mint = do
    amm_keys_vec ← or_panic (lookup mint amm_keys_map)
    results ← for_each (push_loaded fee_payer mint) [] amm_keys_vec
    ok (all_results ++ results)

  -- `join_all` keeps the order of the futures and passes a panic on.
  unfoldable pub initialize_raydium_amm_pools : j.Value → PoolsState → Outcome ⊥ PoolsState
  initialize_raydium_amm_pools raydium_json pools_state = do
    amm_keys_map ← parse_raydium_json j raydium_json chain.mints_of_interest
    fee_payer ← or_panic chain.fee_payer
    all_results ← for_each (load_mint fee_payer amm_keys_map) [] chain.mints_of_interest
    ok (add_pools pools_state all_results)
