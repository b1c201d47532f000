-- ===== src/Arb/Pools/Initialize/Missing.antt =====
-- When loading panics.
use shreds.Base.{
  ℕ, ◌≡◌, refl, ap, ◌∙◌, true, ◌==◌, nat_eq, contains, Option, none, some, List, [], ◌∷◌,
  filter_map, Outcome, ok, panicked, or_panic, ◌>>=◌, for_each, Bool-cases, Outcome-cases, inl, inr,
  arith,
}
use shreds.Base.Assoc.{lookup}
use shreds.Raydium.Json.{Json, Amm, Field, parse_raydium_json}
use shreds.Raydium.Json.Listed.{amm_for}
use shreds.Raydium.Json.Group.{parse_raydium_json-lookup, nonempty}
use shreds.Arb.Pools.{PoolsState}
use shreds.Arb.Pools.Initialize.{
  Chain, LoadedPool, add_pools, load_mint, initialize_raydium_amm_pools,
}

module _ (j : Json) (chain : Chain) where
  missing_panics :
      (fee_payer : ℕ) (amm_keys_map : List (ℕ × List Amm)) (results : List LoadedPool) (mint : ℕ)
      (mints : List ℕ)
      → contains mints mint ≡ true
      → lookup mint amm_keys_map ≡ none
      → for_each (load_mint j chain fee_payer amm_keys_map) results mints ≡ panicked
  unfolding load_mint
  missing_panics fee_payer amm_keys_map results mint [] inside absent = ground arith
  missing_panics fee_payer amm_keys_map results mint (first ∷ mints) inside absent =
      elim (Bool-cases (first == mint)) [
        | inl same ↦
            let here : first ≡ mint = ground (arith, same) in
            let e : lookup first amm_keys_map ≡ none =
              ap (λ m. lookup m amm_keys_map) here ∙ absent in
            rw (for_each, load_mint, e) refl
        | inr other ↦
            elim (Outcome-cases (load_mint j chain fee_payer amm_keys_map results first)) [
              | inl (next, p) ↦ rw p (
                  missing_panics fee_payer amm_keys_map next mint mints
                    (ground (arith, inside, other)) absent)
              | inr (inl (e, p)) ↦ absurd e
              | inr (inr p) ↦ rw p refl
            ]
      ]

  -- A mint of interest that no pool of the file is listed under makes loading panic, whatever the state:
  -- the file was parsed, and it holds an array of pools.
  pub initialize_panics :
      (raydium_json : j.Value) (pools : List j.Value) (pools_state : PoolsState)
      (result : List (ℕ × List Amm)) (mint : ℕ)
      → j.as_array (j.index raydium_json Field.un_official) ≡ some pools
      → parse_raydium_json j raydium_json chain.mints_of_interest ≡ ok result
      → contains chain.mints_of_interest mint ≡ true
      → filter_map (amm_for j chain.mints_of_interest mint) pools ≡ []
      → initialize_raydium_amm_pools j chain raydium_json pools_state ≡ panicked
  unfolding initialize_raydium_amm_pools
  initialize_panics raydium_json pools pools_state result mint here parsed inside unlisted =
      let absent =
        parse_raydium_json-lookup j raydium_json pools chain.mints_of_interest result mint here
          parsed
        ∙ ap nonempty unlisted in
      rw (initialize_raydium_amm_pools, parsed)
        (payer-then chain.fee_payer (λ fee_payer.
          ap (λ all. all >>= λ results. ok (add_pools pools_state results))
            (missing_panics fee_payer result [] mint chain.mints_of_interest inside absent)))
    where
      payer-then :
          (o : Option ℕ) {rest : ℕ → Outcome ⊥ PoolsState}
          → ((n : ℕ) → rest n ≡ panicked)
          → (or_panic o >>= rest) ≡ panicked
      payer-then none h = refl
      payer-then (some n) h = h n
