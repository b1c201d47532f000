-- ===== src/Pump/Texts.antt =====
-- The three texts of an event: those of the last instruction that creates a token.
use shreds.Base.{
  ℕ, ◌≡◌, refl, ◌∙◌, Option, none, some, List, [], ◌∷◌, Option-cases, inl, inr, arith,
}
use shreds.Transaction.{CompiledInstruction}
use shreds.Pump.{
  PumpCreateIx, Borsh, CreatePumpTokenEvent, add_swap, read_instruction, read_instructions,
}

abbrev pub texts_of : CreatePumpTokenEvent → List ℕ × List ℕ × List ℕ
texts_of event = (event.name, event.symbol, event.uri)

-- The texts of an instruction, and others where there is none.
abbrev pub texts_or : List ℕ × List ℕ × List ℕ → Option PumpCreateIx → List ℕ × List ℕ × List ℕ
texts_or texts none = texts
texts_or texts (some token_metadata) =
    (token_metadata.name, token_metadata.symbol, token_metadata.uri)

module _ (borsh : Borsh) where
  -- What is taken for a swap is not looked at again.
  abbrev pub created_by : CompiledInstruction → Option PumpCreateIx
  created_by ix = elim (borsh.decode_swap ix.instruction_data) [
    | some swap ↦ none
    | none ↦ borsh.decode_create ix.instruction_data
  ]

  abbrev pub last_create : List CompiledInstruction → Option PumpCreateIx
  last_create [] = none
  last_create (ix ∷ ixs) = elim (last_create ixs) [ some later ↦ some later | none ↦ created_by ix ]

  texts_of-read_instruction :
      (event : CreatePumpTokenEvent) (ix : CompiledInstruction)
      → texts_of (read_instruction borsh event ix) ≡ texts_or (texts_of event) (created_by ix)
  unfolding read_instruction add_swap
  texts_of-read_instruction event ix = ground arith

  pub texts_of-read_instructions :
      (event : CreatePumpTokenEvent) (ixs : List CompiledInstruction)
      → texts_of (read_instructions borsh event ixs) ≡ texts_or (texts_of event) (last_create ixs)
  unfolding read_instructions
  texts_of-read_instructions event [] = refl
  texts_of-read_instructions event (ix ∷ ixs) = elim (Option-cases (last_create ixs)) [
    | inl nothing ↦
        texts_of-read_instructions (read_instruction borsh event ix) ixs
        ∙ rw (nothing) (texts_of-read_instruction event ix)
    | inr (later, found) ↦
        texts_of-read_instructions (read_instruction borsh event ix) ixs ∙ rw (found) refl
  ]
