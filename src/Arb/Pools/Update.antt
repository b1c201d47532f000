-- ===== src/Arb/Pools/Update.antt =====
-- What a swap does to the pools: the one pool it names, and only its two amounts.
use shreds.Base.{
  ℕ, ◌+◌, ◌-◌, min, ◌≤◌, ◌<◌, ◌≡◌, refl, ap, ◌∙◌, sym, subst, Bool, true, false, nat_eq, some, List,
  [], ◌∷◌, All, Outcome, ok, >>=-eq-ok, ◌>>=◌, arith, Bool-cases, Option-cases, inl, inr,
}
use shreds.Base.Assoc.{lookup, insert, All-insert, All-lookup, lookup-insert_self}
use shreds.Base.Words.{u64_mod}
use shreds.Raydium.Swap.{
  coin2_pc, pc2_coin, AmmMath, ParsedAccounts, RaydiumAmmPool, calculate_price, swap_exact_amount,
}
use shreds.Arb.Pools.{
  PoolsState, vaults_match, set_amounts, swapped_amounts, swap_pool, update_pool_state_swap,
}

-- Both amounts are words.
abbrev pub Fits : RaydiumAmmPool → Type 0
Fits pool =
    (pool.state.pool_pc_vault_amount < u64_mod) × (pool.state.pool_coin_vault_amount < u64_mod)

-- The directions that the code moves the amounts of the vaults in.
abbrev pub Moves : Bool → RaydiumAmmPool → RaydiumAmmPool → Type 0
Moves true pool pool' =
    (pool.state.pool_pc_vault_amount ≤ pool'.state.pool_pc_vault_amount)
    × (pool'.state.pool_coin_vault_amount ≤ pool.state.pool_coin_vault_amount)
Moves false pool pool' =
    (pool'.state.pool_pc_vault_amount ≤ pool.state.pool_pc_vault_amount)
    × (pool.state.pool_coin_vault_amount ≤ pool'.state.pool_coin_vault_amount)

-- The amounts of the vaults behind a swap that `swap_exact_amount` answers with `result`: the direction is
-- `coin2_pc` on exact input and `pc2_coin` on exact output.
abbrev pub Swaps : AmmMath → ℕ → ℕ → Bool → RaydiumAmmPool → RaydiumAmmPool → Type 0
Swaps math amount limit true pool pool' =
    (out : ℕ) × (swap_exact_amount math pool.state.pool_pc_vault_amount
        pool.state.pool_coin_vault_amount pool.state.swap_fee_numerator
        pool.state.swap_fee_denominator coin2_pc amount true
      ≡ ok out)
    × (pool'.state.pool_pc_vault_amount ≡ min (pool.state.pool_pc_vault_amount + out) (u64_mod - 1))
    × (pool'.state.pool_coin_vault_amount ≡ pool.state.pool_coin_vault_amount - amount)
Swaps math amount limit false pool pool' =
    (swap_in : ℕ) × (swap_exact_amount math pool.state.pool_pc_vault_amount
        pool.state.pool_coin_vault_amount pool.state.swap_fee_numerator
        pool.state.swap_fee_denominator pc2_coin limit false
      ≡ ok swap_in)
    × (pool'.state.pool_pc_vault_amount ≡ pool.state.pool_pc_vault_amount - swap_in)
    × (pool'.state.pool_coin_vault_amount
        ≡ min (pool.state.pool_coin_vault_amount + limit) (u64_mod - 1))

-- A pool but for its amounts.
abbrev pub config : RaydiumAmmPool → RaydiumAmmPool
config pool = set_amounts pool (0, 0)

pub ok-inj : {a b : PoolsState} → ◌≡◌ {A = Outcome ⊥ PoolsState} (ok a) (ok b) → a ≡ b
ok-inj e = ground arith

-- The prices only decide whether the swap panics.
priced :
    (pool pool' : RaydiumAmmPool) (amounts : ℕ × ℕ)
    → (calculate_price (set_amounts pool amounts).state pool.decimals >>= λ initial_price.
        calculate_price (set_amounts pool amounts).state pool.decimals >>= λ new_price.
        ok (set_amounts pool amounts))
      ≡ ok pool'
    → pool' ≡ set_amounts pool amounts
priced pool pool' amounts e = ground arith

module _ (math : AmmMath) where
  swapped_amounts-Moves :
      (pool : RaydiumAmmPool) (amount limit : ℕ) (base_in : Bool) (amounts : ℕ × ℕ)
      → Fits pool
      → swapped_amounts math pool.state amount limit base_in ≡ ok amounts
      → Fits (set_amounts pool amounts) × Moves base_in pool (set_amounts pool amounts)
  unfolding swapped_amounts
  swapped_amounts-Moves pool amount limit true amounts fits e = ground arith
  swapped_amounts-Moves pool amount limit false amounts fits e = ground arith

  swapped_amounts-Swaps :
      (pool : RaydiumAmmPool) (amount limit : ℕ) (base_in : Bool) (amounts : ℕ × ℕ)
      → swapped_amounts math pool.state amount limit base_in ≡ ok amounts
      → Swaps math amount limit base_in pool (set_amounts pool amounts)
  unfolding swapped_amounts
  swapped_amounts-Swaps pool amount limit true amounts e =
      let (out, p, q) = >>=-eq-ok {E = ⊥} {B = ℕ × ℕ} _ _ e in
      (out, p, ground (arith, q), ground (arith, q))
  swapped_amounts-Swaps pool amount limit false amounts e =
      let (swap_in, p, q) = >>=-eq-ok {E = ⊥} {B = ℕ × ℕ} _ _ e in
      (swap_in, p, ground (arith, q), ground (arith, q))

  swap_pool-Moves :
      (pool pool' : RaydiumAmmPool) (amount limit : ℕ) (base_in : Bool)
      → Fits pool
      → swap_pool math pool amount limit base_in ≡ ok pool'
      → (config pool' ≡ config pool)
        × Fits pool'
        × Moves base_in pool pool'
        × Swaps math amount limit base_in pool pool'
  unfolding swap_pool
  swap_pool-Moves pool pool' amount limit base_in fits e =
      let (amounts, p, q) = >>=-eq-ok (swapped_amounts math pool.state amount limit base_in) _ e in
      let done = priced pool pool' amounts q in
      let kept =
        subst (λ x. Fits x × Moves base_in pool x) (sym done)
          (swapped_amounts-Moves pool amount limit base_in amounts fits p) in
      (
        ap config done,
        kept.0,
        kept.1,
        subst (λ x. Swaps math amount limit base_in pool x) (sym done)
            (swapped_amounts-Swaps pool amount limit base_in amounts p),
      )

  known :
      (self : PoolsState) (accounts : ParsedAccounts) (pool : RaydiumAmmPool) (amount limit : ℕ)
      (base_in : Bool)
      → lookup accounts.amm_id self.raydium_pools ≡ some pool
      → vaults_match pool accounts ≡ true
      → update_pool_state_swap math self accounts amount limit base_in ≡ (
          swap_pool math pool amount limit base_in >>= λ pool'.
          ok (record self { raydium_pools = insert accounts.amm_id pool' self.raydium_pools }))
  unfolding update_pool_state_swap
  known self accounts pool amount limit base_in found same =
      rw (update_pool_state_swap, found, same) refl

  -- A swap that returns on a known pool, with the vaults of the instruction and with words for its two
  -- amounts, moves just these two:
  -- on exact input the `pc` vault gains what `swap_exact_amount` answers for the direction `coin2_pc` and
  -- the `coin` vault loses the amount that came in, and on exact output the `pc` vault loses what it
  -- answers for `pc2_coin` and the `coin` vault gains the other amount. A gain stops at the largest
  -- word and a loss at 0, so that no vault moves the other way, and both amounts stay words.
  pub update_pool_state_swap-Moves :
      (self next : PoolsState) (accounts : ParsedAccounts) (pool : RaydiumAmmPool)
      (amount limit : ℕ) (base_in : Bool)
      → lookup accounts.amm_id self.raydium_pools ≡ some pool
      → vaults_match pool accounts ≡ true
      → Fits pool
      → update_pool_state_swap math self accounts amount limit base_in ≡ ok next
      → (pool' : RaydiumAmmPool) × (lookup accounts.amm_id next.raydium_pools ≡ some pool')
        × (config pool' ≡ config pool)
        × Fits pool'
        × Moves base_in pool pool'
        × Swaps math amount limit base_in pool pool'
  unfolding update_pool_state_swap
  update_pool_state_swap-Moves self next accounts pool amount limit base_in found same fits e =
      let (pool', p, q) =
        >>=-eq-ok (swap_pool math pool amount limit base_in) _
          (sym (known self accounts pool amount limit base_in found same) ∙ e) in
      let (a, b, c, d) = swap_pool-Moves pool pool' amount limit base_in fits p in
      (
        pool',
        rw (sym (ok-inj q)) (lookup-insert_self accounts.amm_id pool' self.raydium_pools),
        a,
        b,
        c,
        d,
      )

-- The pools with their keys, in their order, but for the amounts.
abbrev pub configs : List (ℕ × RaydiumAmmPool) → List (ℕ × RaydiumAmmPool)
configs [] = []
configs ((amm_id, pool) ∷ pools) = (amm_id, config pool) ∷ configs pools

abbrev pub AllFit : PoolsState → Type 0
AllFit self = All (λ entry. Fits entry.1) self.raydium_pools

-- Nothing but amounts of pools differs.
abbrev pub Keeps : PoolsState → PoolsState → Type 0
Keeps self next =
    (next ≡ record self { raydium_pools = next.raydium_pools })
    × (configs next.raydium_pools ≡ configs self.raydium_pools)

configs-insert :
    (amm_id : ℕ) (pool pool' : RaydiumAmmPool) (pools : List (ℕ × RaydiumAmmPool))
    → lookup amm_id pools ≡ some pool
    → config pool' ≡ config pool
    → configs (insert amm_id pool' pools) ≡ configs pools
unfolding lookup insert
configs-insert amm_id pool pool' [] found e = ground arith
configs-insert amm_id pool pool' ((j, w) ∷ pools) found e =
    ground (arith, configs-insert amm_id pool pool' pools, nat_eq.beq_iff j amm_id)

module _ (math : AmmMath) where
  swap_Keeps :
      (self : PoolsState) (accounts : ParsedAccounts) (pool pool' : RaydiumAmmPool)
      (amount limit : ℕ) (base_in : Bool)
      → AllFit self
      → lookup accounts.amm_id self.raydium_pools ≡ some pool
      → swap_pool math pool amount limit base_in ≡ ok pool'
      → let next = record self {
        raydium_pools = insert accounts.amm_id pool' self.raydium_pools;
      } in
        Keeps self next × AllFit next
  swap_Keeps self accounts pool pool' amount limit base_in fit found p =
      let fits =
        All-lookup (λ entry. Fits entry.1) accounts.amm_id self.raydium_pools pool fit found in
      let (same, fits', moves, swaps) =
        swap_pool-Moves math pool pool' amount limit base_in fits p in
      let kept = configs-insert accounts.amm_id pool pool' self.raydium_pools found same in
      (
        (refl, kept),
        All-insert (λ entry. Fits entry.1) accounts.amm_id pool' self.raydium_pools fits' fit,
      )

  pub update_pool_state_swap-Keeps :
      (self next : PoolsState) (accounts : ParsedAccounts) (amount limit : ℕ) (base_in : Bool)
      → AllFit self
      → update_pool_state_swap math self accounts amount limit base_in ≡ ok next
      → Keeps self next × AllFit next
  unfolding update_pool_state_swap
  update_pool_state_swap-Keeps self next accounts amount limit base_in fit e =
      elim (Option-cases (lookup accounts.amm_id self.raydium_pools)) [
        | inl unknown ↦
            subst (λ x. Keeps self x × AllFit x)
              (ok-inj (rw (sym e) (rw (update_pool_state_swap, unknown) refl))) ((refl, refl), fit)
        | inr (pool, found) ↦ elim (Bool-cases (vaults_match pool accounts)) [
          | inr other ↦
              subst (λ x. Keeps self x × AllFit x)
                (ok-inj (rw (sym e) (rw (update_pool_state_swap, found, other) refl)))
                ((refl, refl), fit)
          | inl same ↦
              let (pool', p, q) =
                >>=-eq-ok (swap_pool math pool amount limit base_in) _
                  (sym (known math self accounts pool amount limit base_in found same) ∙ e) in
              subst (λ x. Keeps self x × AllFit x) (ok-inj q)
                (swap_Keeps self accounts pool pool' amount limit base_in fit found p)
        ]
      ]
