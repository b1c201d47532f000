-- ===== src/Processor/Deliver/Close.antt =====
-- The packet that completes the set in a stream, and what comes behind it.
use mathlib.Core.List.{Permᴰ, append_assoc, append-nil}
use shreds.Base.{
  ℕ, ◌+◌, ◌≤◌, ◌≡◌, refl, ap, sym, ◌∙◌, subst, true, false, nat_eq, pair_eq, List, [], ◌∷◌, ◌++◌,
  length, length-append, map, ok, arith,
}
use shreds.Processor.Process.Order.{length-perm}
use shreds.Base.Assoc.{Distinct}
use shreds.Ledger.{Ledger, IsDocumented, NeverPanics, KeepsHeaders}
use shreds.Processor.State.{EntriesWithMeta, ShredProcessor, Host}
use shreds.Processor.Collect.{collect_all}
use shreds.Processor.Collect.Panics.{indices_ok}
use shreds.Processor.Deliver.Hold.{IsCodingOf, absorb_data, absorb_coding}
use shreds.Processor.Deliver.Round.{At, collect_quiet}
use shreds.Processor.Deliver.Content.{YieldsAll, gather-Holds}
use shreds.Processor.Deliver.Last.{Delivered, Delivers, collect_completes}
use shreds.Processor.Deliver.Others.{Comes, Grew}
use shreds.Processor.Deliver.Skip.{skip, ends_after}
use shreds.Processor.Deliver.Stream.{Passes-Stands, collected_next, quiet_datas}
use shreds.Processor.Deliver.Whole.{IsSender, next_data, still_open, complete_now, good_datas}

module _ {Shred ShredId Entry : Type 0} (l : Ledger Shred ShredId) (host : Host Entry)
    (safe : NeverPanics l) (doc : IsDocumented l) (kept : KeepsHeaders l)
    (quiet : host.tracing ≡ false) (yields : YieldsAll host) (key : ℕ × ℕ) (m : ℕ)
    (sender : List Shred) (entries : List Entry) (is : IsSender l host key m sender entries) where
  -- A completed set, and a stream without packets of it.
  pub closed :
      (k passed left : ℕ) (self later next : ShredProcessor ShredId Entry) (rest : List (List ℕ))
      → Grew l host passed self later
      → Delivered l host later key entries next
      → Distinct next.fec_sets
      → Comes l host key left next.uniqueness rest []
      → passed + left ≤ k
      → (last : ShredProcessor ShredId Entry) × (collect_all l host rest next ≡ ok last)
        × Delivers k key entries self last
  closed k passed left self later next rest (earlier, p, few) (q, gone) d comes bound =
      let one : EntriesWithMeta Entry = record { entries = entries; slot = key.0 } in
      let (last, j, r, passes, few') =
        ends_after l host doc safe kept quiet key next refl d comes in
      let (after, s, few'') = passes.grew in
      (
        last,
        r,
        (
          (
            earlier,
            after,
            s
                ∙ ap (λ sent. sent ++ after) (q ∙ ap (λ sent. sent ++ (one ∷ [])) p)
                ∙ append_assoc (self.sent ++ earlier) (one ∷ []) after
                ∙ append_assoc self.sent earlier (one ∷ after),
            omega (arith, few, few', few'', bound),
          ),
          passes.same ∙ gone,
        ),
      )

  -- The last data shred.
  last_data :
      (k : ℕ) (x : Shred) (datas : List Shred) (stream : List (List ℕ))
      (self : ShredProcessor ShredId Entry)
      → At l host (length sender) m key self datas true
      → Permᴰ (datas ++ (x ∷ [])) sender
      → Comes l host key k self.uniqueness stream (l.payload x ∷ [])
      → (last : ShredProcessor ShredId Entry) × (collect_all l host stream self ≡ ok last)
        × Delivers k key entries self last
  last_data k x datas stream self at p comes =
      let s = skip l host doc safe kept quiet key self refl at.distinct comes in
      let at' =
        Passes-Stands l host safe doc kept quiet yields key m sender entries is s.passed self
          s.later datas true s.passes at in
      let (x-good, distinct) = next_data l host key m sender entries is datas [] x p in
      let all = datas ++ (x ∷ []) in
      let (fec_set, a, h) =
        absorb_data l host (length sender) m key s.later datas [] true x at'.holds x-good
          distinct in
      let (next, q, delivered, d, ids) =
        collect_completes l host (length sender) m key s.later datas all true s.id (l.payload x)
          (l.index x) fec_set sender entries at' x-good.whole.0 s.new x-good.own_index
          x-good.own_set a h (complete_now l host key m sender entries is all fec_set h p)
          (gather-Holds l host safe doc (length sender) m key.1 sender all fec_set yields h refl p
            is.strict (good_datas l host key m sender entries is all p))
          is.some_data is.decodes in
      let (last, r, among) =
        closed k s.passed s.left self s.later next s.rest s.passes.grew delivered d
          (subst (λ seen. Comes l host key s.left seen s.rest []) (sym ids) s.comes) s.few in
      (
        last,
        s.runs
            ∙ collected_next l host safe doc kept quiet yields key m sender entries is s.later next
                (l.payload x) s.rest q
            ∙ r,
        among,
      )

  -- What was sent up to a state and from it on.
  pub Among-Grew :
      (k j i : ℕ) (self later last : ShredProcessor ShredId Entry)
      → Grew l host j self later
      → Delivers i key entries later last
      → j + i ≤ k
      → Delivers k key entries self last
  Among-Grew k j i self later last (extra, p, few) ((earlier, after, q, few'), gone) bound =
      let one : EntriesWithMeta Entry = record { entries = entries; slot = key.0 } in
      (
        (
          extra ++ earlier,
          after,
          q
              ∙ ap (λ sent. sent ++ (earlier ++ (one ∷ after))) p
              ∙ append_assoc self.sent extra (earlier ++ (one ∷ after))
              ∙ ap (λ sent. self.sent ++ sent) (sym (append_assoc extra earlier (one ∷ after))),
          omega (arith, length-append extra earlier, few, few', bound),
        ),
        gone,
      )

  -- The data shreds behind the coding shred, one or more.
  pub last_datas :
      (k : ℕ) (x : Shred) (xs datas : List Shred) (stream : List (List ℕ))
      (self : ShredProcessor ShredId Entry)
      → At l host (length sender) m key self datas true
      → Permᴰ (datas ++ (x ∷ xs)) sender
      → Comes l host key k self.uniqueness stream (map l.payload (x ∷ xs))
      → (last : ShredProcessor ShredId Entry) × (collect_all l host stream self ≡ ok last)
        × Delivers k key entries self last
  last_datas k x [] datas stream self at p comes = last_data k x datas stream self at p comes
  last_datas k x (y ∷ ys) datas stream self at p comes =
      let c =
        quiet_datas l host safe doc kept quiet yields key m sender entries is k (x ∷ []) (y ∷ ys)
          datas true (map l.payload (y ∷ ys)) stream self at p (λ e. omega arith) comes in
      let (last, r, among) =
        last_datas c.left y ys (datas ++ (x ∷ [])) c.rest c.later c.stands
          (subst (λ zs. Permᴰ zs sender) (sym (append_assoc datas (x ∷ []) (y ∷ ys))) p) c.comes in
      (last, c.runs ∙ r, Among-Grew k c.passed c.left self c.later last c.grew among c.few)

  -- The coding shred, behind all data shreds.
  last_coding :
      (k : ℕ) (datas : List Shred) (coding : List ℕ) (stream : List (List ℕ))
      (self : ShredProcessor ShredId Entry)
      → At l host (length sender) m key self datas false
      → Permᴰ datas sender
      → IsCodingOf l key.1 (length sender) m coding
      → Comes l host key k self.uniqueness stream (coding ∷ [])
      → (last : ShredProcessor ShredId Entry) × (collect_all l host stream self ≡ ok last)
        × Delivers k key entries self last
  last_coding k datas coding stream self at p c comes =
      let s = skip l host doc safe kept quiet key self refl at.distinct comes in
      let at' =
        Passes-Stands l host safe doc kept quiet yields key m sender entries is s.passed self
          s.later datas false s.passes at in
      let (index, _, i, _) = indices_ok l coding (omega (arith, c.whole)) in
      let (fec_set, a, h) =
        absorb_coding l host (length sender) m key s.later index datas coding at'.holds c in
      let (next, q, delivered, d, ids) =
        collect_completes l host (length sender) m key s.later datas datas false s.id coding index
          fec_set sender entries at' (omega (arith, c.whole)) s.new i c.own_set a h
          (complete_now l host key m sender entries is datas fec_set h p)
          (gather-Holds l host safe doc (length sender) m key.1 sender datas fec_set yields h refl p
            is.strict (good_datas l host key m sender entries is datas p))
          is.some_data is.decodes in
      let (last, r, among) =
        closed k s.passed s.left self s.later next s.rest s.passes.grew delivered d
          (subst (λ seen. Comes l host key s.left seen s.rest []) (sym ids) s.comes) s.few in
      (
        last,
        s.runs
            ∙ collected_next l host safe doc kept quiet yields key m sender entries is s.later next
                coding s.rest q
            ∙ r,
        among,
      )

  -- What the coding shred meets in a stream.
  pub coding_on :
      (k : ℕ) (datas after : List Shred) (coding : List ℕ) (stream : List (List ℕ))
      (self : ShredProcessor ShredId Entry)
      → At l host (length sender) m key self datas false
      → Permᴰ (datas ++ after) sender
      → IsCodingOf l key.1 (length sender) m coding
      → Comes l host key k self.uniqueness stream (coding ∷ map l.payload after)
      → (last : ShredProcessor ShredId Entry) × (collect_all l host stream self ≡ ok last)
        × Delivers k key entries self last
  coding_on k datas [] coding stream self at p c comes =
      last_coding k datas coding stream self at (subst (λ zs. Permᴰ zs sender) (append-nil datas) p)
        c comes
  coding_on k datas (x ∷ xs) coding stream self at p c comes =
      let s = skip l host doc safe kept quiet key self refl at.distinct comes in
      let at' =
        Passes-Stands l host safe doc kept quiet yields key m sender entries is s.passed self
          s.later datas false s.passes at in
      let (index, _, i, _) = indices_ok l coding (omega (arith, c.whole)) in
      let (fec_set, a, h) =
        absorb_coding l host (length sender) m key s.later index datas coding at'.holds c in
      let open_set =
        still_open l host key m sender entries is datas true fec_set h
          (λ e. omega (arith, length-perm p, length-append datas (x ∷ xs))) in
      let (next, q, ids, sent, at'') =
        collect_quiet l host (length sender) m key s.later datas datas false true s.id coding index
          fec_set at' (omega (arith, c.whole)) s.new i c.own_set a h open_set in
      let (last, r, among) = last_datas s.left x xs datas s.rest next at'' p (
        subst (λ seen. Comes l host key s.left seen s.rest (map l.payload (x ∷ xs))) (sym ids)
          s.comes) in
      (
        last,
        s.runs
            ∙ collected_next l host safe doc kept quiet yields key m sender entries is s.later next
                coding s.rest q
            ∙ r,
        Among-Grew k s.passed s.left self next last
            (let (extra, e, few) = s.passes.grew in (extra, sent ∙ e, few)) among s.few,
      )
