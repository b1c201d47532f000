-- ===== src/Raydium/Json.antt =====
-- src/raydium.rs: `parse_raydium_json` and `json_to_amm`, which read the pools of some mints from a file.
pub mod Listed
pub mod Group
use shreds.Base.{
  ℕ, ◌%◌, Bool, not, ◌==◌, nat_eq, if◌then◌else◌, contains, Option, none, some, List, [], ◌∷◌, ◌++◌,
  length, Outcome, ok, err, panicked, or_panic, ◌>>=◌, for_each,
}
use shreds.Base.Assoc.{lookup, insert}
use shreds.Raydium.Swap.{AmmKeys, RaydiumDecimals}

-- The member names that the code spells: `unOfficial`, `id`, `baseMint` and so on.
pub data Field : Type 0 where
  un_official id base_mint quote_mint authority target_orders base_vault quote_vault lp_mint
        open_orders :
      Field
  market_program_id market_id base_decimals quote_decimals lp_decimals : Field

-- What the code takes from serde_json, and `Pubkey::from_str`.
pub record Json : Type 1 where
  pub Value : Type 0
  pub Text : Type 0
  pub index : Value → Field → Value
  pub as_str : Value → Option Text
  pub as_u64 : Value → Option ℕ
  pub as_array : Value → Option (List Value)
  pub from_str : Text → Option ℕ

abbrev pub Amm : Type 0
Amm = AmmKeys × RaydiumDecimals

abbrev pub or_empty : Option (List Amm) → List Amm
or_empty none = []
or_empty (some amms) = amms

-- `result.entry(mint).or_insert(vec![]).push(amm_keys)`
abbrev pub push_amm : List (ℕ × List Amm) → ℕ → Amm → List (ℕ × List Amm)
push_amm result mint amm = insert mint (or_empty (lookup mint result) ++ (amm ∷ [])) result

module _ (j : Json) where
  -- `Pubkey::from_str(json[field].as_str().unwrap()).unwrap()`
  unfoldable pub read_key : j.Value → Field → Outcome ⊥ ℕ
  read_key json field = do
    text ← or_panic (j.as_str (j.index json field))
    or_panic (j.from_str text)

  -- `json[field].as_u64().unwrap() as u8`
  unfoldable pub read_u8 : j.Value → Field → Outcome ⊥ ℕ
  read_u8 json field = do n ← or_panic (j.as_u64 (j.index json field)); ok (n % 256)

  unfoldable pub json_to_amm : j.Value → Outcome ⊥ Amm
  json_to_amm json = do
    amm_pool ← read_key json id
    amm_coin_mint ← read_key json base_mint
    amm_pc_mint ← read_key json quote_mint
    amm_authority ← read_key json authority
    amm_target ← read_key json target_orders
    amm_coin_vault ← read_key json base_vault
    amm_pc_vault ← read_key json quote_vault
    amm_lp_mint ← read_key json lp_mint
    amm_open_order ← read_key json open_orders
    market_program ← read_key json market_program_id
    market ← read_key json market_id
    coin_decimals ← read_u8 json base_decimals
    pc_decimals ← read_u8 json quote_decimals
    decimals ← read_u8 json lp_decimals
    ok (
      record {
        amm_pool = amm_pool;
        amm_coin_mint = amm_coin_mint;
        amm_pc_mint = amm_pc_mint;
        amm_authority = amm_authority;
        amm_target = amm_target;
        amm_coin_vault = amm_coin_vault;
        amm_pc_vault = amm_pc_vault;
        amm_lp_mint = amm_lp_mint;
        amm_open_order = amm_open_order;
        market_program = market_program;
        market = market;
        nonce = 0;
      },
      record { coin_decimals = coin_decimals; pc_decimals = pc_decimals; lp_decimals = decimals },
    )

  -- One round of the loop over the pools.
  unfoldable pub add_json : List ℕ → List (ℕ × List Amm) → j.Value → Outcome ⊥ (List (ℕ × List Amm))
  add_json mints_of_interest result json = do
    base ← read_key json base_mint
    quote ← read_key json quote_mint
    if contains mints_of_interest base
        then (do amm ← json_to_amm json; ok (push_amm result base amm))
        else if contains mints_of_interest quote
        then (do amm ← json_to_amm json; ok (push_amm result quote amm))
        else ok result

  unfoldable pub parse_raydium_json : j.Value → List ℕ → Outcome ⊥ (List (ℕ × List Amm))
  parse_raydium_json raydium_json mints_of_interest = do
    pools ← or_panic (j.as_array (j.index raydium_json un_official))
    for_each (add_json mints_of_interest) [] pools

-- The test of the warning at its end.
abbrev pub warns_missing : List ℕ → List (ℕ × List Amm) → Bool
warns_missing mints_of_interest result = not (length mints_of_interest == length result)
