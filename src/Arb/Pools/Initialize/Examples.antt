-- ===== src/Arb/Pools/Initialize/Examples.antt =====
-- Loading from a file of four pools: two mints of interest are traded there, and a third is not.
use shreds.Arb.Pools.Initialize.Missing.{initialize_panics}
use shreds.Base.{◌≡◌, refl, nat_eq, [], ◌∷◌, filter_map, All, panicked}
use shreds.Base.Assoc.{lookup}
use shreds.Raydium.Json.{read_key}
use shreds.Raydium.Json.Listed.{amm_for}
use shreds.Raydium.Json.Group.{nonempty, parse_raydium_json-lookup}
use shreds.Arb.Pools.Initialize.{default_state, initialize_raydium_amm_pools}
use shreds.Arb.Pools.Initialize.Loads.{IsPool, initialize-IsPool}
use shreds.Arb.Pools.Initialize.Session.{
  json, file, pools, by_mint, parses, chain, chain-AmountsFit, pools_state, loads,
}

parse_raydium_json-lookup_example :
    lookup 30 by_mint ≡ nonempty (filter_map (amm_for json (30 ∷ 31 ∷ 99 ∷ []) 30) pools)
parse_raydium_json-lookup_example =
    parse_raydium_json-lookup json file pools (30 ∷ 31 ∷ 99 ∷ []) by_mint 30 refl
      (parses (30 ∷ 31 ∷ 99 ∷ []) refl)

unlisted : filter_map (amm_for json (30 ∷ 31 ∷ 99 ∷ []) 99) pools ≡ []
unfolding read_key
unlisted = refl

initialize_panics_example :
    initialize_raydium_amm_pools json (chain (30 ∷ 31 ∷ 99 ∷ [])) file default_state ≡ panicked
initialize_panics_example =
    initialize_panics json (chain (30 ∷ 31 ∷ 99 ∷ [])) file pools default_state by_mint 99 refl
      (parses (30 ∷ 31 ∷ 99 ∷ []) refl) refl unlisted

initialize-IsPool_example :
    All
      (IsPool json (chain (30 ∷ 31 ∷ [])) (chain-AmountsFit (30 ∷ 31 ∷ [])))
      pools_state.raydium_pools
initialize-IsPool_example =
    initialize-IsPool json (chain (30 ∷ 31 ∷ [])) (chain-AmountsFit (30 ∷ 31 ∷ [])) file
      default_state pools_state tt loads
