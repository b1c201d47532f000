-- ===== src/Raydium/Json/Group.antt =====
-- What `parse_raydium_json` returns: under each mint of interest, the pools that trade it, in the order of
-- the file.
use mathlib.Core.List.{append-nil, append_assoc}
use shreds.Base.{
  ℕ, ◌≡◌, refl, ap, sym, subst, ◌∙◌, ◌==◌, nat_eq, if◌then◌else◌, Option, none, some, List, [], ◌∷◌,
  ◌++◌, All, filter_map, keep, ok, or_panic, ◌>>=◌, >>=-eq-ok, ok-inj, for_each, for_each-invariant,
  All-append, Bool-cases, Option-cases, inl, inr, arith,
}
use shreds.Base.Assoc.{lookup, lookup-insert, All-insert, All-lookup}
use shreds.Raydium.Json.{Json, Amm, Field, or_empty, push_amm, add_json, parse_raydium_json}
use shreds.Raydium.Json.Listed.{amm_for, IsListed, Adds, add_json-Adds}

-- A list under a key is never empty.
abbrev pub nonempty : List Amm → Option (List Amm)
nonempty [] = none
nonempty (amm ∷ amms) = some (amm ∷ amms)

nonempty-snoc :
    (amms : List Amm) (amm : Amm) → nonempty (amms ++ (amm ∷ [])) ≡ some (amms ++ (amm ∷ []))
nonempty-snoc [] amm = refl
nonempty-snoc (first ∷ amms) amm = refl

or_empty-nonempty : (amms : List Amm) → or_empty (nonempty amms) ≡ amms
or_empty-nonempty [] = refl
or_empty-nonempty (amm ∷ amms) = refl

lookup-push_amm :
    (result : List (ℕ × List Amm)) (mint k : ℕ) (amm : Amm) (amms : List Amm)
    → lookup mint result ≡ nonempty amms
    → lookup mint (push_amm result k amm)
      ≡ nonempty (amms ++ keep (if k == mint then some amm else none) [])
lookup-push_amm result mint k amm amms h =
    lookup-insert k mint (or_empty (lookup k result) ++ (amm ∷ [])) result
    ∙ elim (Bool-cases (k == mint)) [
      | inl same ↦
          let e : k ≡ mint = ground (arith, same) in
          let r : or_empty (lookup k result) ≡ amms =
            ap (λ m. or_empty (lookup m result)) e ∙ ap or_empty h ∙ or_empty-nonempty amms in
          rw (same, r) (sym (nonempty-snoc amms amm))
      | inr other ↦ rw (other, append-nil amms) h
    ]

module _ (j : Json) where
  Adds-lookup :
      (mints : List ℕ) (result next : List (ℕ × List Amm)) (json : j.Value) (mint : ℕ)
      (amms : List Amm)
      → Adds j mints result json next
      → lookup mint result ≡ nonempty amms
      → lookup mint next ≡ nonempty (amms ++ keep (amm_for j mints mint json) [])
  Adds-lookup mints result next json mint amms (inl (unlisted, same)) h =
      rw (same, amm_for, unlisted, append-nil amms) h
  Adds-lookup mints result next json mint amms (inr (k, amm, listed, parsed, _, pushed)) h =
      rw (pushed, amm_for, listed, parsed) (lookup-push_amm result mint k amm amms h)

  loop-lookup :
      (mints : List ℕ) (result next : List (ℕ × List Amm)) (pools : List j.Value) (mint : ℕ)
      (amms : List Amm)
      → for_each (add_json j mints) result pools ≡ ok next
      → lookup mint result ≡ nonempty amms
      → lookup mint next ≡ nonempty (amms ++ filter_map (amm_for j mints mint) pools)
  loop-lookup mints result next [] mint amms h e =
      rw (append-nil amms) (ap (lookup mint) (sym (ok-inj {E = ⊥} h)) ∙ e)
  loop-lookup mints result next (json ∷ pools) mint amms h e =
      let (middle, p, q) = >>=-eq-ok (add_json j mints result json) _ h in
      let step =
        Adds-lookup mints result middle json mint amms (add_json-Adds j mints result json middle p)
          e in
      loop-lookup mints middle next pools mint (amms ++ keep (amm_for j mints mint json) []) q step
      ∙ ap nonempty (
          append_assoc amms (keep (amm_for j mints mint json) [])
            (filter_map (amm_for j mints mint) pools)
          ∙ ap (λ r. amms ++ r)
              (keep-append (amm_for j mints mint json) (filter_map (amm_for j mints mint) pools)))
    where
      keep-append : (o : Option Amm) (r : List Amm) → keep o [] ++ r ≡ keep o r
      keep-append none r = refl
      keep-append (some amm) r = refl

  -- Under each key the map that is returned holds the pools of the file that list this key, in their order,
  -- and it has no key without a pool: a pool is listed under the mint of its coin if that is of interest,
  -- else under that of its pc if that is, else nowhere.
  pub parse_raydium_json-lookup :
      (raydium_json : j.Value) (pools : List j.Value) (mints_of_interest : List ℕ)
      (result : List (ℕ × List Amm)) (mint : ℕ)
      → j.as_array (j.index raydium_json Field.un_official) ≡ some pools
      → parse_raydium_json j raydium_json mints_of_interest ≡ ok result
      → lookup mint result ≡ nonempty (filter_map (amm_for j mints_of_interest mint) pools)
  unfolding parse_raydium_json lookup
  parse_raydium_json-lookup raydium_json pools mints_of_interest result mint here h =
      loop-lookup mints_of_interest [] result pools mint []
        (sym (
            ap (λ o. or_panic {E = ⊥} o >>= λ p. for_each (add_json j mints_of_interest) [] p) here)
          ∙ h)
        refl

  -- Each list holds pools that are listed under its key.
  abbrev pub AllListed : List ℕ → List (ℕ × List Amm) → Type 0
  AllListed mints = All (λ e. All (IsListed j mints e.0) e.1)

  push_amm-AllListed :
      (mints : List ℕ) (result : List (ℕ × List Amm)) (mint : ℕ) (amm : Amm)
      → AllListed mints result
      → IsListed j mints mint amm
      → AllListed mints (push_amm result mint amm)
  push_amm-AllListed mints result mint amm all listed =
      All-insert (λ e. All (IsListed j mints e.0) e.1) mint
        (or_empty (lookup mint result) ++ (amm ∷ [])) result
        (All-append (IsListed j mints mint) (or_empty (lookup mint result)) (amm ∷ []) before
          (listed, tt))
        all
    where
      before : All (IsListed j mints mint) (or_empty (lookup mint result))
      before = elim (Option-cases (lookup mint result)) [
        | inl absent ↦ rw absent tt
        | inr (amms, found) ↦
            rw found (All-lookup (λ e. All (IsListed j mints e.0) e.1) mint result amms all found)
      ]

  pub parse_raydium_json-AllListed :
      (raydium_json : j.Value) (mints_of_interest : List ℕ) (result : List (ℕ × List Amm))
      → parse_raydium_json j raydium_json mints_of_interest ≡ ok result
      → AllListed mints_of_interest result
  unfolding parse_raydium_json
  parse_raydium_json-AllListed raydium_json mints result h =
      let (pools, _, loop) =
        >>=-eq-ok (or_panic (j.as_array (j.index raydium_json Field.un_official))) _ h in
      for_each-invariant (AllListed mints) (add_json j mints)
        (λ before json next all step. elim (add_json-Adds j mints before json next step) [
          | inl (_, same) ↦ subst (AllListed mints) (sym same) all
          | inr (mint, amm, _, _, listed, pushed) ↦
              subst (AllListed mints) (sym pushed)
                (push_amm-AllListed mints before mint amm all listed)
        ])
        [] result pools tt loop
