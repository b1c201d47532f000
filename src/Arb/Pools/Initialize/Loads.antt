-- ===== src/Arb/Pools/Initialize/Loads.antt =====
-- What the pools are once they are loaded.
use shreds.Base.{
  ℕ, ◌<◌, ◌≡◌, refl, subst, nat_eq, some, List, [], ◌∷◌, All, All-append, ok, or_panic,
  or_panic-eq-ok, >>=-eq-ok, ok-inj, for_each, for_each-invariant,
}
use shreds.Base.Assoc.{lookup, All-insert, All-lookup}
use shreds.Base.Words.{u64_mod}
use shreds.Raydium.Swap.{AmmKeys, CalculateResult, RaydiumAmmPool}
use shreds.Raydium.Json.{Json, Amm, parse_raydium_json}
use shreds.Raydium.Json.Listed.{IsListed}
use shreds.Raydium.Json.Group.{AllListed, parse_raydium_json-AllListed}
use shreds.Arb.Pools.{PoolsState}
use shreds.Arb.Pools.Update.{Fits}
use shreds.Arb.Pools.Initialize.{
  Chain, LoadedPool, add_pool, add_pools, load_pool, push_loaded, load_mint,
  initialize_raydium_amm_pools,
}

-- The amounts that come from the chain are words.
pub record AmountsFit (chain : Chain) : Type 0 where
  pub amounts :
      (program pool : ℕ) (amm_keys : AmmKeys) (market_keys : chain.MarketPubkeys) (fee_payer : ℕ)
      (state : CalculateResult)
      → chain.calculate_pool_vault_amounts program pool amm_keys market_keys fee_payer ≡ some state
      → (state.pool_pc_vault_amount < u64_mod) × (state.pool_coin_vault_amount < u64_mod)

module _ (j : Json) (chain : Chain) (fits : AmountsFit chain) where
  -- A pool under its own key, with a mint of interest as its token, which it trades, and words as amounts.
  abbrev pub IsPool : ℕ × RaydiumAmmPool → Type 0
  IsPool e =
      (e.0 ≡ e.1.amm_keys.amm_pool)
      × IsListed j chain.mints_of_interest e.1.token (e.1.amm_keys, e.1.decimals)
      × Fits e.1

  abbrev to_pool : LoadedPool → RaydiumAmmPool
  to_pool loaded = record {
    token = loaded.mint;
    amm_keys = loaded.amm_keys;
    state = loaded.state;
    decimals = loaded.decimals;
  }

  abbrev Listed : LoadedPool → Type 0
  Listed loaded =
      IsListed j chain.mints_of_interest loaded.mint (loaded.amm_keys, loaded.decimals)
      × Fits (to_pool loaded)

  push_loaded-Listed :
      (fee_payer mint : ℕ) (amm_keys_vec : List Amm) (results next : List LoadedPool)
      → All (IsListed j chain.mints_of_interest mint) amm_keys_vec
      → All Listed results
      → for_each (push_loaded j chain fee_payer mint) results amm_keys_vec ≡ ok next
      → All Listed next
  unfolding load_pool
  push_loaded-Listed fee_payer mint [] results next all before h =
      subst (All Listed) (ok-inj {E = ⊥} h) before
  push_loaded-Listed fee_payer mint ((amm_keys, decimals) ∷ amms) results next all before h =
      let (middle, p, q) =
        >>=-eq-ok (push_loaded j chain fee_payer mint results (amm_keys, decimals)) _ h in
      let (loaded, a, b) = >>=-eq-ok (load_pool j chain fee_payer mint (amm_keys, decimals)) _ p in
      let (market_keys, _, c) =
        >>=-eq-ok (or_panic (chain.get_keys_for_market amm_keys.market_program amm_keys.market)) _
          a in
      let (state, e, d) =
        >>=-eq-ok
          (or_panic (
            chain.calculate_pool_vault_amounts chain.raydium_amm amm_keys.amm_pool amm_keys
              market_keys fee_payer))
          _ c in
      push_loaded-Listed fee_payer mint amms middle next all.1
        (subst (All Listed) (ok-inj {E = ⊥} b) (
          All-append Listed results (loaded ∷ []) before (
            subst Listed (ok-inj {E = ⊥} d)
                (all.0, fits.amounts _ _ _ _ _ state (or_panic-eq-ok {E = ⊥} e)),
            tt,
          )))
        q

  load_mint-Listed :
      (fee_payer : ℕ) (amm_keys_map : List (ℕ × List Amm)) (results next : List LoadedPool)
      (mint : ℕ)
      → AllListed j chain.mints_of_interest amm_keys_map
      → All Listed results
      → load_mint j chain fee_payer amm_keys_map results mint ≡ ok next
      → All Listed next
  unfolding load_mint
  load_mint-Listed fee_payer amm_keys_map results next mint all before h =
      let (amms, p, h1) = >>=-eq-ok (or_panic (lookup mint amm_keys_map)) _ h in
      let (new_results, q, h2) =
        >>=-eq-ok (for_each (push_loaded j chain fee_payer mint) [] amms) _ h1 in
      let found : lookup mint amm_keys_map ≡ some amms = or_panic-eq-ok p in
      let listed =
        All-lookup (λ e. All (IsListed j chain.mints_of_interest e.0) e.1) mint amm_keys_map amms
          all found in
      subst (All Listed) (ok-inj {E = ⊥} h2) (
        All-append Listed results new_results before
          (push_loaded-Listed fee_payer mint amms [] new_results listed tt q))

  add_pools-IsPool :
      (pools_state : PoolsState) (results : List LoadedPool)
      → All IsPool pools_state.raydium_pools
      → All Listed results
      → All IsPool (add_pools pools_state results).raydium_pools
  unfolding add_pool
  add_pools-IsPool pools_state [] pools listed = pools
  add_pools-IsPool pools_state (loaded ∷ results) pools listed =
      add_pools-IsPool (add_pool pools_state loaded) results
        (All-insert IsPool loaded.amm_keys.amm_pool (to_pool loaded) pools_state.raydium_pools
          (refl, listed.0.0, listed.0.1) pools)
        listed.1

  -- Loading keeps this, when it returns: each pool stands under its own key, its token is a mint of
  -- interest and one of the two mints that it trades, its decimals are bytes, and its amounts words, as those
  -- of the chain are.
  pub initialize-IsPool :
      (raydium_json : j.Value) (before next : PoolsState)
      → All IsPool before.raydium_pools
      → initialize_raydium_amm_pools j chain raydium_json before ≡ ok next
      → All IsPool next.raydium_pools
  unfolding initialize_raydium_amm_pools
  initialize-IsPool raydium_json before next pools h =
      let (amm_keys_map, p, h1) =
        >>=-eq-ok (parse_raydium_json j raydium_json chain.mints_of_interest) _ h in
      let (fee_payer, _, h2) = >>=-eq-ok (or_panic chain.fee_payer) _ h1 in
      let (results, q, h3) =
        >>=-eq-ok (for_each (load_mint j chain fee_payer amm_keys_map) [] chain.mints_of_interest) _
          h2 in
      let all =
        parse_raydium_json-AllListed j raydium_json chain.mints_of_interest amm_keys_map p in
      let listed =
        for_each-invariant (All Listed) (load_mint j chain fee_payer amm_keys_map)
          (λ s mint t before step. load_mint-Listed fee_payer amm_keys_map s t mint all before step)
          [] results chain.mints_of_interest tt q in
      subst (λ (s : PoolsState). All IsPool s.raydium_pools) (ok-inj {E = ⊥} h3)
        (add_pools-IsPool before results pools listed)

-- The counts of transactions are not touched.
abbrev pub SameCounts : PoolsState → PoolsState → Type 0
SameCounts before after =
    (after.orca_count ≡ before.orca_count)
    × (after.raydium_cp_count ≡ before.raydium_cp_count)
    × (after.raydium_amm_count ≡ before.raydium_amm_count)

add_pools-SameCounts :
    (pools_state : PoolsState) (results : List LoadedPool)
    → SameCounts pools_state (add_pools pools_state results)
unfolding add_pool
add_pools-SameCounts pools_state [] = (refl, refl, refl)
add_pools-SameCounts pools_state (loaded ∷ results) =
    add_pools-SameCounts (add_pool pools_state loaded) results

module _ (j : Json) (chain : Chain) where
  pub initialize-SameCounts :
      (raydium_json : j.Value) (before next : PoolsState)
      → initialize_raydium_amm_pools j chain raydium_json before ≡ ok next
      → SameCounts before next
  unfolding initialize_raydium_amm_pools
  initialize-SameCounts raydium_json before next h =
      let (amm_keys_map, p, h1) =
        >>=-eq-ok (parse_raydium_json j raydium_json chain.mints_of_interest) _ h in
      let (fee_payer, _, h2) = >>=-eq-ok (or_panic chain.fee_payer) _ h1 in
      let (results, q, h3) =
        >>=-eq-ok (for_each (load_mint j chain fee_payer amm_keys_map) [] chain.mints_of_interest) _
          h2 in
      subst (SameCounts before) (ok-inj {E = ⊥} h3) (add_pools-SameCounts before results)
