-- ===== src/Pump/Event.antt =====
-- The event of one transaction: whether there is one, and what it says.
use shreds.Base.{
  ℕ, ◌≡◌, ◌⊎◌, inl, inr, refl, ap, ◌∙◌, sym, true, false, nat_eq, none, some, List, [], ◌∷◌,
  get_elem?, get_elem?-lt, length, ok, panicked, Bool-cases, Option-cases, arith,
}
use shreds.Transaction.{VersionedTransaction, first_signature}
use shreds.Pump.{
  Borsh, ReadsFields, CreatePumpTokenEvent, default_event, read_instructions, is_pump, create_event,
}
use shreds.Pump.Texts.{texts_of, texts_or, last_create, texts_of-read_instructions}
use shreds.Pump.Account.{Counts, swaps_of, read_instructions-Counts, read_instructions-keys}

-- What the event of a transaction says of it: its slot and its first signature, three of its account keys,
-- the name, symbol and URI of its last create instruction or empty texts, and the counts of its swaps.
abbrev pub Describes : Borsh → ℕ → VersionedTransaction → CreatePumpTokenEvent → Type 0
Describes borsh slot tx event =
    (event.slot ≡ slot)
    × ((sig : ℕ) × (first_signature tx ≡ some sig) × (event.sig ≡ borsh.to_string sig))
    × (get_elem? tx.message.static_account_keys 1 ≡ some event.mint)
    × (get_elem? tx.message.static_account_keys 3 ≡ some event.bounding_curve)
    × (get_elem? tx.message.static_account_keys 4 ≡ some event.associated_bounding_curve)
    × (texts_of event ≡ texts_or ([], [], []) (last_create borsh tx.message.instructions))
    × Counts (swaps_of borsh tx.message.instructions) event

-- Transactions and their events, in the same order.
abbrev pub DescribeAll : Borsh → ℕ → List VersionedTransaction → List CreatePumpTokenEvent → Type 0
DescribeAll borsh slot [] [] = Unit
DescribeAll borsh slot (tx ∷ txs) [] = ⊥
DescribeAll borsh slot [] (event ∷ events) = ⊥
DescribeAll borsh slot (tx ∷ txs) (event ∷ events) =
    Describes borsh slot tx event × DescribeAll borsh slot txs events

module _ (borsh : Borsh) (slot : ℕ) (tx : VersionedTransaction) where
  create_event-other : is_pump borsh tx ≡ false → create_event borsh slot tx ≡ ok none
  unfolding create_event
  create_event-other other = rw (create_event, other) refl

  is_pump-keys : is_pump borsh tx ≡ true → length tx.message.static_account_keys ≡ 18
  is_pump-keys pump = ground arith

  pub create_event-panics :
      is_pump borsh tx ≡ true → first_signature tx ≡ none → create_event borsh slot tx ≡ panicked
  unfolding create_event
  create_event-panics pump unsigned =
      let len = is_pump-keys pump in
      let (mint, p1) = get_elem?-lt tx.message.static_account_keys 1 (omega arith) in
      let (curve, p3) = get_elem?-lt tx.message.static_account_keys 3 (omega arith) in
      let (associated, p4) = get_elem?-lt tx.message.static_account_keys 4 (omega arith) in
      rw (create_event, pump, p1, p3, p4, unsigned) refl

  create_event-signed :
      (layout : ReadsFields borsh) (sig : ℕ)
      → is_pump borsh tx ≡ true
      → first_signature tx ≡ some sig
      → (event : CreatePumpTokenEvent) × (create_event borsh slot tx ≡ ok (some event))
        × Describes borsh slot tx event
  unfolding create_event
  create_event-signed layout sig pump signed =
      let len = is_pump-keys pump in
      let (mint, p1) = get_elem?-lt tx.message.static_account_keys 1 (omega arith) in
      let (curve, p3) = get_elem?-lt tx.message.static_account_keys 3 (omega arith) in
      let (associated, p4) = get_elem?-lt tx.message.static_account_keys 4 (omega arith) in
      let start : CreatePumpTokenEvent = record default_event {
        mint = mint;
        bounding_curve = curve;
        associated_bounding_curve = associated;
      } in
      let (k1, k3, k4) = read_instructions-keys borsh start tx.message.instructions in
      (
        record (read_instructions borsh start tx.message.instructions) {
          sig = borsh.to_string sig;
          slot = slot;
        },
        rw (create_event, pump, p1, p3, p4, signed) refl,
        (
          refl,
          (sig, signed, refl),
          p1 ∙ ap some (sym k1),
          p3 ∙ ap some (sym k3),
          p4 ∙ ap some (sym k4),
          texts_of-read_instructions borsh start tx.message.instructions,
          read_instructions-Counts borsh layout mint curve associated tx.message.instructions,
        ),
      )

  unsigned-empty : first_signature tx ≡ none → tx.signatures ≡ []
  unsigned-empty unsigned = ground (arith, unsigned)

  -- A transaction that is not taken for a pump transaction has no event; one that is has an event that
  -- describes it, or panics when nobody has signed it.
  pub create_event_lem :
      (layout : ReadsFields borsh)
      → ((is_pump borsh tx ≡ false) × (create_event borsh slot tx ≡ ok none))
        ⊎ ((is_pump borsh tx ≡ true)
            × (tx.signatures ≡ [])
            × (create_event borsh slot tx ≡ panicked))
        ⊎ ((is_pump borsh tx ≡ true)
            × (event : CreatePumpTokenEvent) × (create_event borsh slot tx ≡ ok (some event))
            × Describes borsh slot tx event)
  create_event_lem layout = elim (Bool-cases (is_pump borsh tx)) [
    | inr other ↦ inl (other, create_event-other other)
    | inl pump ↦ elim (Option-cases (first_signature tx)) [
      | inl unsigned ↦ inr (inl (pump, unsigned-empty unsigned, create_event-panics pump unsigned))
      | inr (sig, signed) ↦
          let (event, p, describes) = create_event-signed layout sig pump signed in
          inr (inr (pump, event, p, describes))
    ]
  ]
