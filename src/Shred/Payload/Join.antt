-- ===== src/Shred/Payload/Join.antt =====
-- The data of shreds whose payloads hold a whole header: it is found without a panic, inside the
-- payload, and joined in the order of the shreds.
use shreds.Base.{
  get_elem?-lt, ℕ, ◌+◌, ◌-◌, ◌≤◌, ◌≡◌, ◌⊎◌, refl, ap, sym, ◌∙◌, subst, true, false, ltb, some, List,
  [], ◌∷◌, ◌++◌, get_elem?, length, take, drop, length-take, length-drop, length-append, flat_map,
  All, Outcome, ok, err, panicked, arith, inl, inr, Bool-cases,
}
use shreds.Base.Bytes.{slice-eq_ok, le_bytes}
use shreds.Base.Words.{saturating_add}
use shreds.Ledger.{
  Ledger, HasHeader, IsDocumented, Error, invalid_payload_size, invalid_shred_variant,
}
use shreds.Variant.{ShredVariant, legacy_code, legacy_data, merkle_code, merkle_data, try_from}
use shreds.Variant.RoundTrip.{try_from-cases}
use shreds.Shred.Header.{is_shred_data, is_data_variant}
use shreds.Shred.Payload.{data_range, shred_data, deshred}

-- `data_range` finds a start behind the header for the data variants, and refuses the others.
data_range_cases :
    (v : ShredVariant) (payload : List ℕ)
    → HasHeader payload
    → ((is_data_variant v ≡ true)
        × ((start size : ℕ) × (data_range v payload ≡ ok (start, size))
            × (0x56 ≤ start)
            × (start ≤ 0x58)))
      ⊎ ((is_data_variant v ≡ false) × (data_range v payload ≡ err invalid_shred_variant))
unfolding data_range
data_range_cases legacy_code payload h = inr (refl, refl)
data_range_cases legacy_data payload h =
    inl (refl, (0x56, length payload - 0x56, refl, omega arith, omega arith))
data_range_cases (merkle_code n c r) payload h = inr (refl, refl)
data_range_cases (merkle_data n c r) payload h =
    let (low, p) = get_elem?-lt payload 0x56 (omega arith) in
    let (high, q) = get_elem?-lt payload 0x57 (omega arith) in
    inl (refl, (0x58, le_bytes (low ∷ high ∷ []) - 0x58, rw (p, q), omega arith, omega arith))

-- `is_shred_data` looks at the variant alone.
is_shred_data_of :
    {Shred ShredId : Type 0} (l : Ledger Shred ShredId) (raw : List ℕ) {b : ℕ} {v : ShredVariant}
    → get_elem? raw l.signature_bytes ≡ some b
    → try_from l.type_byte b ≡ ok v
    → is_shred_data l raw ≡ is_data_variant v
unfolding is_shred_data
is_shred_data_of l raw p q = rw (p, is_shred_data, q)

is_shred_data_refused :
    {Shred ShredId : Type 0} (l : Ledger Shred ShredId) (raw : List ℕ) {b : ℕ}
    → get_elem? raw l.signature_bytes ≡ some b
    → try_from l.type_byte b ≡ err invalid_shred_variant
    → is_shred_data l raw ≡ false
unfolding is_shred_data
is_shred_data_refused l raw p q = rw (p, is_shred_data, q)

abbrev pub or_empty : Outcome Error (List ℕ) → List ℕ
or_empty (ok bytes) = bytes
or_empty (err e) = []
or_empty panicked = []

module _ {Shred ShredId : Type 0} (l : Ledger Shred ShredId) where
  -- The data of one shred, as `unwrap_or_default` takes it.
  abbrev pub data_or_default : Shred → List ℕ
  data_or_default shred = or_empty (shred_data l shred)

  abbrev pub HaveHeaders : List Shred → Type 0
  HaveHeaders = All (λ shred. HasHeader (l.payload shred))

  abbrev pub total_length : List Shred → ℕ
  total_length [] = 0
  total_length (shred ∷ shreds) = length (l.payload shred) + total_length shreds

  -- The claim of `deshred_lem` at a list, with the data of its first shred as a variable.
  abbrev Joined : Shred → List Shred → List ℕ → Type 0
  Joined shred shreds bytes =
      (deshred l (shred ∷ shreds) ≡ ok (bytes ++ flat_map data_or_default shreds))
      × (length (bytes ++ flat_map data_or_default shreds) ≤ total_length (shred ∷ shreds))

module _ {Shred ShredId : Type 0} (l : Ledger Shred ShredId) (doc : IsDocumented l) where
  -- With the constants as documented, a payload with a header gives its data, which lies behind the
  -- header, only when its variant is that of a data shred; it gives an error on other variants, and
  -- on a data shred whose length does not fit, and never panics.
  pub shred_data_cases :
      (shred : Shred)
      → HasHeader (l.payload shred)
      → ((bytes : List ℕ) × (shred_data l shred ≡ ok bytes)
          × (is_shred_data l (l.payload shred) ≡ true)
          × (length bytes + 0x56 ≤ length (l.payload shred)))
        ⊎ ((shred_data l shred ≡ err invalid_shred_variant)
            × (is_shred_data l (l.payload shred) ≡ false))
        ⊎ ((shred_data l shred ≡ err (invalid_payload_size (length (l.payload shred))))
            × (is_shred_data l (l.payload shred) ≡ true))
  unfolding shred_data
  shred_data_cases shred h =
      let raw = l.payload shred in
      let (b, p) = get_elem?-lt raw l.signature_bytes (omega (arith, doc.signature_length)) in
      elim (try_from-cases l.type_byte b) [
        | inr q ↦ inr (inl (rw (p, q), is_shred_data_refused l raw p q))
        | inl (v, q) ↦ elim (data_range_cases v raw h) [
          | inr (c, r) ↦ inr (inl (rw (p, q, r), is_shred_data_of l raw p q ∙ c))
          | inl (d, (start, size, r, lo, hi)) ↦
              elim (Bool-cases (ltb (length raw) (saturating_add start size))) [
                | inl long ↦ inr (inr (rw (p, q, r, long), is_shred_data_of l raw p q ∙ d))
                | inr fits ↦ inl (
                  take (saturating_add start size - start) (drop start raw),
                  rw (p, q, r, fits) (slice-eq_ok raw start _ (ground arith) (ground arith)),
                  is_shred_data_of l raw p q ∙ d,
                  omega (
                    arith,
                    length-take (saturating_add start size - start) (drop start raw),
                    length-drop start raw,
                  ),
                )
              ]
        ]
      ]

  deshred-cons_ok :
      (shred : Shred) (shreds : List Shred) (bytes rest : List ℕ)
      → shred_data l shred ≡ ok bytes
      → deshred l shreds ≡ ok rest
      → deshred l (shred ∷ shreds) ≡ ok (bytes ++ rest)
  unfolding deshred
  deshred-cons_ok shred shreds bytes rest p q = rw (p, q)

  deshred-cons_err :
      (shred : Shred) (shreds : List Shred) (e : Error) (rest : List ℕ)
      → shred_data l shred ≡ err e
      → deshred l shreds ≡ ok rest
      → deshred l (shred ∷ shreds) ≡ ok rest
  unfolding deshred
  deshred-cons_err shred shreds e rest p q = rw (p, q)

  -- With the constants as documented, shreds with headers are joined without a panic: the result is
  -- the data of each in turn, where a shred whose data cannot be found adds nothing, and is no
  -- longer than the payloads together.
  pub deshred_lem :
      (shreds : List Shred)
      → HaveHeaders l shreds
      → (deshred l shreds ≡ ok (flat_map (data_or_default l) shreds))
        × (length (flat_map (data_or_default l) shreds) ≤ total_length l shreds)
  unfolding deshred
  deshred_lem [] h = (refl, omega arith)
  deshred_lem (shred ∷ shreds) h =
      let (joined, bound) = deshred_lem shreds h.1 in
      let rest = flat_map (data_or_default l) shreds in
      elim (shred_data_cases shred h.0) [
        | inl (bytes, p, _, short) ↦ subst (Joined l shred shreds) (sym (ap or_empty p)) (
          deshred-cons_ok shred shreds bytes rest p joined,
          omega (arith, length-append bytes rest),
        )
        | inr (inl (p, _)) ↦
            subst (Joined l shred shreds) (sym (ap or_empty p))
              (deshred-cons_err shred shreds _ rest p joined, omega arith)
        | inr (inr (p, _)) ↦
            subst (Joined l shred shreds) (sym (ap or_empty p))
              (deshred-cons_err shred shreds _ rest p joined, omega arith)
      ]
