-- ===== src/Processor/Deliver/Stream.antt =====
-- All packets of a set, in a stream.
use mathlib.Core.List.{Permᴰ, append_assoc, append-nil}
use shreds.Base.{
  ℕ, ◌+◌, ◌≤◌, ◌≡◌, refl, sym, ◌∙◌, subst, Bool, true, false, nat_eq, pair_eq, List, [], ◌∷◌, ◌++◌,
  length, map, ok, arith,
}
use shreds.Ledger.{Ledger, IsDocumented, NeverPanics, KeepsHeaders}
use shreds.Processor.State.{ShredProcessor, Host}
use shreds.Processor.Collect.{or_new, collect, collect_all}
use shreds.Processor.Deliver.Hold.{Holds, absorb_data}
use shreds.Processor.Deliver.Round.{At, collect_quiet}
use shreds.Processor.Deliver.Content.{YieldsAll}
use shreds.Processor.Deliver.Others.{Comes, Grew, Grew-refl, Grew-trans}
use shreds.Processor.Deliver.Skip.{Passes, skip}
use shreds.Processor.Deliver.Whole.{IsSender, next_data, still_open, fewer}

module _ {Shred ShredId Entry : Type 0} (l : Ledger Shred ShredId) (host : Host Entry)
    (safe : NeverPanics l) (doc : IsDocumented l) (kept : KeepsHeaders l)
    (quiet : host.tracing ≡ false) (yields : YieldsAll host) (key : ℕ × ℕ) (m : ℕ)
    (sender : List Shred) (entries : List Entry) (is : IsSender l host key m sender entries) where
  abbrev pub packets : List Shred → List (List ℕ)
  packets = map l.payload

  abbrev pub Stands : ShredProcessor ShredId Entry → List Shred → Bool → Type 0
  Stands = At l host (length sender) m key

  -- Up to a state in which some packets of the set have come.
  pub record Came (k : ℕ) (self : ShredProcessor ShredId Entry) (stream : List (List ℕ))
      (datas : List Shred) (coded : Bool) (tail : List (List ℕ)) : Type 0 where
    pub later : ShredProcessor ShredId Entry
    pub rest : List (List ℕ)
    pub passed : ℕ
    pub left : ℕ
    pub runs : collect_all l host stream self ≡ collect_all l host rest later
    pub stands : Stands later datas coded
    pub comes : Comes l host key left later.uniqueness rest tail
    pub grew : Grew l host passed self later
    pub few : passed + left ≤ k

  pub Passes-Stands :
      (j : ℕ) (self later : ShredProcessor ShredId Entry) (datas : List Shred) (coded : Bool)
      → Passes l host key j self later
      → Stands self datas coded
      → Stands later datas coded
  Passes-Stands j self later datas coded passes at = record {
    distinct = passes.distinct;
    holds =
        subst (λ o. Holds l (length sender) m datas coded (or_new o)) (sym passes.same) at.holds;
  }

  pub collected_next :
      (self next : ShredProcessor ShredId Entry) (raw : List ℕ) (rest : List (List ℕ))
      → collect l host self raw ≡ ok next
      → collect_all l host (raw ∷ rest) self ≡ collect_all l host rest next
  unfolding collect_all
  collected_next self next raw rest q = rw q refl

  -- One data shred, which leaves the set incomplete.
  pub one_data :
      (k : ℕ) (x : Shred) (xs rest datas : List Shred) (coded : Bool) (tail : List (List ℕ))
      (stream : List (List ℕ)) (self : ShredProcessor ShredId Entry)
      → Stands self datas coded
      → Permᴰ (datas ++ (x ∷ (xs ++ rest))) sender
      → (coded ≡ true → 1 ≤ length rest)
      → Comes l host key k self.uniqueness stream (l.payload x ∷ tail)
      → Came k self stream (datas ++ (x ∷ [])) coded tail
  one_data k x xs rest datas coded tail stream self at p missing comes =
      let s = skip l host doc safe kept quiet key self refl at.distinct comes in
      let at' = Passes-Stands s.passed self s.later datas coded s.passes at in
      let (x-good, distinct) = next_data l host key m sender entries is datas (xs ++ rest) x p in
      let (fec_set, a, h) =
        absorb_data l host (length sender) m key s.later datas (xs ++ rest) coded x at'.holds x-good
          distinct in
      let open_set =
        still_open l host key m sender entries is (datas ++ (x ∷ [])) coded fec_set h
          (λ c. fewer l host key m sender entries is datas xs rest x p (missing c)) in
      let (next, q, ids, sent, at'') =
        collect_quiet l host (length sender) m key s.later datas (datas ++ (x ∷ [])) coded coded
          s.id (l.payload x) (l.index x) fec_set at' x-good.whole.0 s.new x-good.own_index
          x-good.own_set a h open_set in
      record {
        later = next;
        rest = s.rest;
        passed = s.passed + 0;
        left = s.left;
        runs = s.runs ∙ collected_next s.later next (l.payload x) s.rest q;
        stands = at'';
        comes = subst (λ seen. Comes l host key s.left seen s.rest tail) (sym ids) s.comes;
        grew =
            Grew-trans l host s.passed 0 self s.later next s.passes.grew
              (Grew-refl l host s.later next sent);
        few = omega (arith, s.few);
      }

  -- Data shreds after which the set still lacks something.
  pub quiet_datas :
      (k : ℕ) (xs rest datas : List Shred) (coded : Bool) (tail stream : List (List ℕ))
      (self : ShredProcessor ShredId Entry)
      → Stands self datas coded
      → Permᴰ (datas ++ (xs ++ rest)) sender
      → (coded ≡ true → 1 ≤ length rest)
      → Comes l host key k self.uniqueness stream (packets xs ++ tail)
      → Came k self stream (datas ++ xs) coded tail
  quiet_datas k [] rest datas coded tail stream self at p missing comes = record {
    later = self;
    rest = stream;
    passed = 0;
    left = k;
    runs = refl;
    stands = subst (λ xs. Stands self xs coded) (sym (append-nil datas)) at;
    comes = comes;
    grew = Grew-refl l host self self refl;
    few = omega arith;
  }
  quiet_datas k (x ∷ xs) rest datas coded tail stream self at p missing comes =
      let c =
        one_data k x xs rest datas coded (packets xs ++ tail) stream self at p missing comes in
      let r =
        quiet_datas c.left xs rest (datas ++ (x ∷ [])) coded tail c.rest c.later c.stands
          (subst (λ zs. Permᴰ zs sender) (sym (append_assoc datas (x ∷ []) (xs ++ rest))) p) missing
          c.comes in
      record {
        later = r.later;
        rest = r.rest;
        passed = c.passed + r.passed;
        left = r.left;
        runs = c.runs ∙ r.runs;
        stands = subst (λ zs. Stands r.later zs coded) (append_assoc datas (x ∷ []) xs) r.stands;
        comes = r.comes;
        grew = Grew-trans l host c.passed r.passed self c.later r.later c.grew r.grew;
        few = omega (arith, c.few, r.few);
      }
