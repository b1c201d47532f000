-- ===== src/Processor/Deliver/Skip.antt =====
-- A stream up to the next packet of a set, and behind its last one.
use shreds.Base.{
  ℕ, ◌+◌, ◌≤◌, ◌≡◌, refl, ap, sym, ◌∙◌, subst, true, false, contains, nat_eq, pair_eq, some, List,
  [], ◌∷◌, ok, arith,
}
use shreds.Base.Assoc.{lookup, Distinct}
use shreds.Ledger.{Ledger, IsDocumented, NeverPanics, KeepsHeaders}
use shreds.Processor.State.{ShredProcessor, Host}
use shreds.Processor.Collect.{collect_all}
use shreds.Processor.Collect.Unique.{collect_seen}
use shreds.Processor.Deliver.Round.{IsNew}
use shreds.Processor.Deliver.Others.{
  IsOther, Comes, nothing, own, again, other, Grew, Grew-refl, Grew-trans, collect_other,
}

-- What other packets leave as it is, and how much they send.
pub record Passes {Shred ShredId Entry : Type 0} (l : Ledger Shred ShredId) (host : Host Entry)
    (key : ℕ × ℕ) (passed : ℕ) (self later : ShredProcessor ShredId Entry) : Type 0 where
  pub distinct : Distinct later.fec_sets
  pub same : lookup key later.fec_sets ≡ lookup key self.fec_sets
  pub grew : Grew l host passed self later

-- The state before the next packet of the set, and what comes behind that.
pub record Skipped {Shred ShredId Entry : Type 0} (l : Ledger Shred ShredId) (host : Host Entry)
    (key : ℕ × ℕ) (k : ℕ) (self : ShredProcessor ShredId Entry) (stream : List (List ℕ))
    (raw : List ℕ) (packets : List (List ℕ)) : Type 0 where
  pub later : ShredProcessor ShredId Entry
  pub id : ShredId
  pub rest : List (List ℕ)
  pub passed : ℕ
  pub left : ℕ
  pub runs : collect_all l host stream self ≡ collect_all l host (raw ∷ rest) later
  pub new : IsNew l host key.0 later.uniqueness raw id
  pub comes : Comes l host key left (id ∷ later.uniqueness) rest packets
  pub passes : Passes l host key passed self later
  pub few : passed + left ≤ k

module _ {Shred ShredId Entry : Type 0} (l : Ledger Shred ShredId) (host : Host Entry)
    (doc : IsDocumented l) (safe : NeverPanics l) (kept : KeepsHeaders l)
    (quiet : host.tracing ≡ false) (key : ℕ × ℕ) where
  Passes-refl :
      (self : ShredProcessor ShredId Entry) → Distinct self.fec_sets → Passes l host key 0 self self
  Passes-refl self d = record { distinct = d; same = refl; grew = Grew-refl l host self self refl }

  Passes-trans :
      (j k : ℕ) (self next last : ShredProcessor ShredId Entry)
      → Passes l host key j self next
      → Passes l host key k next last
      → Passes l host key (j + k) self last
  Passes-trans j k self next last a b = record {
    distinct = b.distinct;
    same = b.same ∙ a.same;
    grew = Grew-trans l host j k self next last a.grew b.grew;
  }

  steps_over :
      (self : ShredProcessor ShredId Entry) (raw : List ℕ) (id : ShredId)
      → IsOther l host key self.uniqueness raw id
      → Distinct self.fec_sets
      → (next : ShredProcessor ShredId Entry) × ((rest : List (List ℕ))
          → collect_all l host (raw ∷ rest) self ≡ collect_all l host rest next)
        × Passes l host key 1 self next
        × (next.uniqueness ≡ id ∷ self.uniqueness)
  unfolding collect_all
  steps_over self raw id o d =
      let (next, q, distinct, grew, same, ids) =
        collect_other l host doc safe kept quiet self key raw id o d in
      (next, λ rest. rw q refl, record { distinct = distinct; same = same; grew = grew }, ids)

  drops_seen :
      (self : ShredProcessor ShredId Entry) (raw : List ℕ) (id : ShredId) (rest : List (List ℕ))
      → l.get_shred_id raw ≡ some id
      → contains ⦃eq = l.id_eq⦄ self.uniqueness id ≡ true
      → collect_all l host (raw ∷ rest) self ≡ collect_all l host rest self
  unfolding collect_all
  drops_seen self raw id rest p old = rw (collect_seen l host self raw id p old) refl

  pub skip :
      {k : ℕ} {seen : List ShredId} {stream packets : List (List ℕ)} {raw : List ℕ}
      (self : ShredProcessor ShredId Entry)
      → self.uniqueness ≡ seen
      → Distinct self.fec_sets
      → Comes l host key k seen stream (raw ∷ packets)
      → Skipped l host key k self stream raw packets
  skip {k = k} {raw = raw} self e d
        (own {stream = stream} {packets = packets} {id = id} new comes) =
      record {
        later = self;
        id = id;
        rest = stream;
        passed = 0;
        left = k;
        runs = refl;
        new = subst (λ seen. IsNew l host key.0 seen raw id) (sym e) new;
        comes = subst (λ seen. Comes l host key k (id ∷ seen) stream packets) (sym e) comes;
        passes = Passes-refl self d;
        few = omega arith;
      }
  skip self e d (again {raw = raw} {stream = stream} {id = id} p old comes) =
      let r = skip self e d comes in
      let dropped =
        drops_seen self raw id stream p
          (subst (λ seen. contains ⦃eq = l.id_eq⦄ seen id ≡ true) (sym e) old) in
      record {
        later = r.later;
        id = r.id;
        rest = r.rest;
        passed = r.passed;
        left = r.left;
        runs = dropped ∙ r.runs;
        new = r.new;
        comes = r.comes;
        passes = r.passes;
        few = r.few;
      }
  skip self e d (other {raw = raw} {stream = stream} {id = id} o comes) =
      let (next, runs, passes, ids) =
        steps_over self raw id (subst (λ seen. IsOther l host key seen raw id) (sym e) o) d in
      let r = skip next (ids ∙ ap (λ seen. id ∷ seen) e) passes.distinct comes in
      record {
        later = r.later;
        id = r.id;
        rest = r.rest;
        passed = 1 + r.passed;
        left = r.left;
        runs = runs stream ∙ r.runs;
        new = r.new;
        comes = r.comes;
        passes = Passes-trans 1 r.passed self next r.later passes r.passes;
        few = omega (arith, r.few);
      }

  -- Behind the last packet of the set.
  pub ends_after :
      {k : ℕ} {seen : List ShredId} {stream : List (List ℕ)} (self : ShredProcessor ShredId Entry)
      → self.uniqueness ≡ seen
      → Distinct self.fec_sets
      → Comes l host key k seen stream []
      → (last : ShredProcessor ShredId Entry) × (j : ℕ) × (collect_all l host stream self ≡ ok last)
        × Passes l host key j self last
        × (j ≤ k)
  unfolding collect_all
  ends_after self e d nothing = (self, 0, refl, Passes-refl self d, omega arith)
  ends_after self e d (again {raw = raw} {stream = stream} {id = id} p old comes) =
      let (last, j, q, passes, few) = ends_after self e d comes in
      (
        last,
        j,
        drops_seen self raw id stream p
              (subst (λ seen. contains ⦃eq = l.id_eq⦄ seen id ≡ true) (sym e) old)
            ∙ q,
        passes,
        few,
      )
  ends_after self e d (other {raw = raw} {stream = stream} {id = id} o comes) =
      let (next, runs, passes, ids) =
        steps_over self raw id (subst (λ seen. IsOther l host key seen raw id) (sym e) o) d in
      let (last, j, q, passes', few) =
        ends_after next (ids ∙ ap (λ seen. id ∷ seen) e) passes.distinct comes in
      (
        last,
        1 + j,
        runs stream ∙ q,
        Passes-trans 1 j self next last passes passes',
        omega (arith, few),
      )
