-- ===== src/Constants.antt =====
-- src/constants.rs and src/util.rs, and the tables of keys in src/arb.rs and src/graduates_processor.rs. The
-- reader of a key in base 58, `Pubkey::from_str`, is a parameter.
use shreds.Base.{ℕ, Option, none, some, List, String, [], ◌∷◌, Outcome, ok, or_panic, ◌>>=◌}
use shreds.Graduates as Graduates

abbrev pub whirlpool : String
whirlpool = "whirLbMiicVdio4qvUfM5KAg6Ct8VwpYzGff3uctyCc"

abbrev pub raydium_cp : String
raydium_cp = "CPMMoo8L3F4NbTegBCKVNunggL7H1ZpdTHKxQB5qKP1C"

abbrev pub raydium_amm : String
raydium_amm = "675kPX9MHTjS2zt1qfr1NYHuzeLXfQM9H24wFSUt1Mp8"

abbrev pub pump_migration_program : String
pump_migration_program = "39azUYFWPz3VHgKCf3VChUwbpURdCHRxjWVowf5jUJjg"

abbrev pub raydium_lp_program : String
raydium_lp_program = "675kPX9MHTjS2zt1qfr1NYHuzeLXfQM9H24wFSUt1Mp8"

-- `env`: a variable that is not set is a panic.
unfoldable pub env {κ} : {E : Type κ} → (String → Option String) → String → Outcome E String
env variables key = or_panic (variables key)

-- `pubkey_to_string` and `string_to_pubkey` pass the key on as its text.
abbrev pub pubkey_to_string : (ℕ → String) → ℕ → String
pubkey_to_string to_string pubkey = to_string pubkey

abbrev pub string_to_pubkey : (String → Option ℕ) → Option String → Option ℕ
string_to_pubkey from_str none = none
string_to_pubkey from_str (some s) = from_str s

module _ (from_str : String → Option ℕ) where
  abbrev pub read_keys : List String → Outcome ⊥ (List ℕ)
  read_keys [] = ok []
  read_keys (p ∷ ps) = or_panic (from_str p) >>= λ key. read_keys ps >>= λ keys. ok (key ∷ keys)

  unfoldable pub get_mints_of_interest : Outcome ⊥ (List ℕ)
  get_mints_of_interest = read_keys (
      "3S8qX1MsMqRbiwKg2cQyx7nis1oHMgaCuc9c4VfvVdPN"
      ∷ "EbZh3FDVcgnLNbh1ooatcDL1RCRhBgTKirFKNoGPpump"
      ∷ "GYKmdfcUmZVrqfcH1g579BGjuzSRijj3LBuwv79rpump"
      ∷ "8Ki8DpuWNxu9VsS3kQbarsCWMcFGWkzzA8pUPto9zBd5"
      ∷ "HiHULk2EEF6kGfMar19QywmaTJLUr3LA1em8DyW1pump"
      ∷ "GiG7Hr61RVm4CSUxJmgiCoySFQtdiwxtqf64MsRppump"
      ∷ "3B5wuUrMEi5yATD7on46hKfej3pfmd7t1RKgrsN3pump"
      ∷ "CTg3ZgYx79zrE1MteDVkmkcGniiFrK1hJ6yiabropump" ∷ [])

  -- `PUMP_MIGRATION_PUBKEY` and `RAYDIUM_LP_PUBKEY`.
  unfoldable pub graduate_programs : Outcome ⊥ Graduates.Programs
  graduate_programs = or_panic (from_str pump_migration_program) >>= λ migration.
      or_panic (from_str raydium_lp_program) >>= λ lp.
      ok (record { pump_migration = migration; raydium_lp = lp })
