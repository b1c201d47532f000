-- ===== src/Raydium/Json/Listed.antt =====
-- One round of `parse_raydium_json`: what it reads of a pool, and under which mint it lists it.
use shreds.Base.{
  ℕ, ◌<◌, ◌≡◌, ◌⊎◌, refl, sym, subst, ◌∙◌, true, ◌==◌, nat_eq, if◌then◌else◌, contains, Option,
  none, some, List, Outcome, ok, err, panicked, or_panic, ok?, ◌>>=◌, >>=-eq-ok, ok-inj, Bool-cases,
  inl, inr, arith,
}
use shreds.Raydium.Json.{
  Json, Amm, Field, base_mint, quote_mint, push_amm, read_key, read_u8, json_to_amm, add_json,
}

module _ (j : Json) where
  -- The mint under which a pool is listed: that of its coin if it is of interest, else that of its pc.
  abbrev pub mint_of : List ℕ → j.Value → Option ℕ
  mint_of mints json = elim (read_key j json base_mint) [
    | panicked ↦ none
    | err e ↦ none
    | ok base ↦ if contains mints base then some base else elim (read_key j json quote_mint) [
      | panicked ↦ none
      | err e ↦ none
      | ok quote ↦ if contains mints quote then some quote else none
    ]
  ]

  abbrev pub amm_for : List ℕ → ℕ → j.Value → Option Amm
  amm_for mints mint json = elim (mint_of mints json) [
    | none ↦ none
    | some k ↦ if k == mint then ok? (json_to_amm j json) else none
  ]

  -- A pool that is listed under a mint of interest trades it, and its decimals are bytes.
  pub record IsListed (mints : List ℕ) (mint : ℕ) (amm : Amm) : Type 0 where
    pub of_interest : contains mints mint ≡ true
    pub trades : (mint ≡ amm.0.amm_coin_mint) ⊎ (mint ≡ amm.0.amm_pc_mint)
    pub coin_byte : amm.1.coin_decimals < 256
    pub pc_byte : amm.1.pc_decimals < 256
    pub lp_byte : amm.1.lp_decimals < 256

  read_u8-byte : (json : j.Value) (field : Field) (n : ℕ) → read_u8 j json field ≡ ok n → n < 256
  unfolding read_u8
  read_u8-byte json field n h =
      let (m, p, q) = >>=-eq-ok (or_panic (j.as_u64 (j.index json field))) _ h in
      subst (λ x. x < 256) (ok-inj {E = ⊥} q) (omega arith)

  json_to_amm-eq_ok :
      (json : j.Value) (amm : Amm)
      → json_to_amm j json ≡ ok amm
      → (read_key j json base_mint ≡ ok amm.0.amm_coin_mint)
        × (read_key j json quote_mint ≡ ok amm.0.amm_pc_mint)
        × (amm.1.coin_decimals < 256)
        × (amm.1.pc_decimals < 256)
        × (amm.1.lp_decimals < 256)
  unfolding json_to_amm
  json_to_amm-eq_ok json amm h =
      let (_, _, h1) = >>=-eq-ok (read_key j json Field.id) _ h in
      let (coin, coin_read, h2) = >>=-eq-ok (read_key j json base_mint) _ h1 in
      let (pc, pc_read, h3) = >>=-eq-ok (read_key j json quote_mint) _ h2 in
      let (_, _, h4) = >>=-eq-ok (read_key j json Field.authority) _ h3 in
      let (_, _, h5) = >>=-eq-ok (read_key j json Field.target_orders) _ h4 in
      let (_, _, h6) = >>=-eq-ok (read_key j json Field.base_vault) _ h5 in
      let (_, _, h7) = >>=-eq-ok (read_key j json Field.quote_vault) _ h6 in
      let (_, _, h8) = >>=-eq-ok (read_key j json Field.lp_mint) _ h7 in
      let (_, _, h9) = >>=-eq-ok (read_key j json Field.open_orders) _ h8 in
      let (_, _, h10) = >>=-eq-ok (read_key j json Field.market_program_id) _ h9 in
      let (_, _, h11) = >>=-eq-ok (read_key j json Field.market_id) _ h10 in
      let (a, p, h12) = >>=-eq-ok (read_u8 j json Field.base_decimals) _ h11 in
      let (b, q, h13) = >>=-eq-ok (read_u8 j json Field.quote_decimals) _ h12 in
      let (c, r, h14) = >>=-eq-ok (read_u8 j json Field.lp_decimals) _ h13 in
      let e = ok-inj {E = ⊥} h14 in
      subst
        (λ (x : Amm).
          (read_key j json base_mint ≡ ok x.0.amm_coin_mint)
          × (read_key j json quote_mint ≡ ok x.0.amm_pc_mint)
          × (x.1.coin_decimals < 256)
          × (x.1.pc_decimals < 256)
          × (x.1.lp_decimals < 256))
        e
        (
          coin_read,
          pc_read,
          read_u8-byte json Field.base_decimals a p,
          read_u8-byte json Field.quote_decimals b q,
          read_u8-byte json Field.lp_decimals c r,
        )

  -- What a round that returns has done: nothing, or one pool was pushed under its mint.
  abbrev pub Adds : List ℕ → List (ℕ × List Amm) → j.Value → List (ℕ × List Amm) → Type 0
  Adds mints result json next =
      ((mint_of mints json ≡ none) × (next ≡ result))
      ⊎ ((mint : ℕ) × (amm : Amm) × (mint_of mints json ≡ some mint)
          × (json_to_amm j json ≡ ok amm)
          × IsListed mints mint amm
          × (next ≡ push_amm result mint amm))

  -- What a round does with the two mints that it has read.
  abbrev add_read : List ℕ → List (ℕ × List Amm) → j.Value → ℕ → ℕ → Outcome ⊥ (List (ℕ × List Amm))
  add_read mints result json base quote =
      if contains mints base
      then (json_to_amm j json >>= λ amm. ok (push_amm result base amm))
      else if contains mints quote
      then (json_to_amm j json >>= λ amm. ok (push_amm result quote amm))
      else ok result

  add_read-Adds :
      (mints : List ℕ) (result : List (ℕ × List Amm)) (json : j.Value) (next : List (ℕ × List Amm))
      (base quote : ℕ)
      → read_key j json base_mint ≡ ok base
      → read_key j json quote_mint ≡ ok quote
      → add_read mints result json base quote ≡ ok next
      → Adds mints result json next
  add_read-Adds mints result json next base quote p q h = elim (Bool-cases (contains mints base)) [
    | inl is_base ↦
        let (amm, a, b) =
          >>=-eq-ok (json_to_amm j json) (λ amm. ok (push_amm result base amm))
            (sym (rw is_base refl) ∙ h) in
        let (c, d, e, f, g) = json_to_amm-eq_ok json amm a in
        inr (
          base,
          amm,
          rw (mint_of, p, is_base) refl,
          a,
          record {
            of_interest = is_base;
            trades = inl (ok-inj {E = ⊥} (sym p ∙ c));
            coin_byte = e;
            pc_byte = f;
            lp_byte = g;
          },
          ok-inj {E = ⊥} (sym b),
        )
    | inr other ↦ elim (Bool-cases (contains mints quote)) [
      | inl is_quote ↦
          let (amm, a, b) =
            >>=-eq-ok (json_to_amm j json) (λ amm. ok (push_amm result quote amm))
              (sym (rw (other, is_quote) refl) ∙ h) in
          let (c, d, e, f, g) = json_to_amm-eq_ok json amm a in
          inr (
            quote,
            amm,
            rw (mint_of, p, other, q, is_quote) refl,
            a,
            record {
              of_interest = is_quote;
              trades = inr (ok-inj {E = ⊥} (sym q ∙ d));
              coin_byte = e;
              pc_byte = f;
              lp_byte = g;
            },
            ok-inj {E = ⊥} (sym b),
          )
      | inr neither ↦ inl (
        rw (mint_of, p, other, q, neither) refl,
        ok-inj {E = ⊥} (sym h ∙ rw (add_read, other, neither) refl),
      )
    ]
  ]

  pub add_json-Adds :
      (mints : List ℕ) (result : List (ℕ × List Amm)) (json : j.Value) (next : List (ℕ × List Amm))
      → add_json j mints result json ≡ ok next
      → Adds mints result json next
  unfolding add_json
  add_json-Adds mints result json next h =
      let (base, p, h1) = >>=-eq-ok (read_key j json base_mint) _ h in
      let (quote, q, h2) = >>=-eq-ok (read_key j json quote_mint) _ h1 in
      add_read-Adds mints result json next base quote p q h2
