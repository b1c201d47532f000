-- ===== src/Base/Loop.antt =====
-- A `for` loop whose body may panic, over the state that the body changes.
use mathlib.Core.Path.{◌≡◌, refl, sym, ap, subst, ◌∙◌}
use mathlib.Core.List.{List, [], ◌∷◌, ◌++◌}
use shreds.Base.Lists.{flat_map}
use shreds.Base.Fallible.{Outcome, ok, ◌>>=◌, >>=_assoc, >>=-congr, >>=-eq-ok, >>=-ok, ok-inj}

module _ {ℓ κ μ} {E : Type κ} {S : Type ℓ} {A : Type μ} where
  abbrev pub for_each : (S → A → Outcome E S) → S → List A → Outcome E S
  for_each body s [] = ok s
  for_each body s (x ∷ xs) = body s x >>= λ next. for_each body next xs

  pub for_each-append :
      (body : S → A → Outcome E S) (s : S) (xs ys : List A)
      → for_each body s (xs ++ ys) ≡ (for_each body s xs >>= λ next. for_each body next ys)
  for_each-append body s [] ys = refl
  for_each-append body s (x ∷ xs) ys =
      >>=-congr (body s x) (λ next. for_each body next (xs ++ ys))
        (λ next. for_each body next xs >>= λ last. for_each body last ys)
        (λ next. for_each-append body next xs ys)
      ∙ sym (>>=_assoc (body s x) (λ next. for_each body next xs) (λ last. for_each body last ys))

  -- One more round.
  pub for_each-snoc :
      (body : S → A → Outcome E S) (s t : S) (xs : List A) (x : A)
      → for_each body s xs ≡ ok t
      → for_each body s (xs ++ (x ∷ [])) ≡ body t x
  for_each-snoc body s t xs x h =
      for_each-append body s xs (x ∷ [])
      ∙ ap (λ call. call >>= λ next. for_each body next (x ∷ [])) h
      ∙ >>=-ok (body t x)

  -- What every round keeps holds after the loop.
  pub for_each-invariant {ν} :
      (P : S → Type ν) (body : S → A → Outcome E S)
      → ((s : S) (x : A) (next : S) → P s → body s x ≡ ok next → P next)
      → (s t : S) (xs : List A) → P s
      → for_each body s xs ≡ ok t
      → P t
  for_each-invariant P body keeps s t [] p h = subst P (ok-inj h) p
  for_each-invariant P body keeps s t (x ∷ xs) p h =
      let (next, q, r) = >>=-eq-ok (body s x) _ h in
      for_each-invariant P body keeps next t xs (keeps s x next p q) r

module _ {ℓ κ μ} {E : Type κ} {S : Type ℓ} {A : Type μ} where
  -- A loop in a loop is the loop over all elements.
  pub for_each-for_each :
      (body : S → A → Outcome E S) (s : S) (xss : List (List A))
      → for_each (for_each body) s xss ≡ for_each body s (flat_map (λ xs. xs) xss)
  for_each-for_each body s [] = refl
  for_each-for_each body s (xs ∷ xss) =
      >>=-congr (for_each body s xs) (λ next. for_each (for_each body) next xss)
        (λ next. for_each body next (flat_map (λ xs. xs) xss))
        (λ next. for_each-for_each body next xss)
      ∙ sym (for_each-append body s xs (flat_map (λ xs. xs) xss))
