-- ===== src/Processor/Deliver/Others.antt =====
-- The packets of other sets that come between those of a set.
use shreds.Base.{
  ℕ, suc, ◌+◌, ◌≤◌, ◌≡◌, ◌≢◌, refl, ap, sym, ◌∙◌, subst, true, false, contains, nat_eq, pair_eq,
  some, List, [], ◌∷◌, ◌++◌, length, length-append, ok, arith, inl, inr,
}
use mathlib.Core.List.{append-nil, append_assoc}
use shreds.Base.Assoc.{lookup, Distinct, insert-Distinct, remove-Distinct}
use shreds.Ledger.{Ledger, IsDocumented, NeverPanics, KeepsHeaders}
use shreds.Shred.Header.{get_fec_set_index}
use shreds.Processor.State.{EntriesWithMeta, ShredProcessor, Host}
use shreds.Processor.Process.{finish}
use shreds.Processor.Process.Branches.{Effect, Effect-sent}
use shreds.Processor.Collect.{count_shred, insert, collect}
use shreds.Processor.Collect.Panics.{collect_total}
use shreds.Processor.Collect.Unique.{insert-Inserted, insert-uniqueness, insert-lookup_ne, marked}
use shreds.Processor.Deliver.Round.{IsNew, collect_taken}

module _ {Shred ShredId Entry : Type 0} (l : Ledger Shred ShredId) (host : Host Entry) where
  -- A packet that does not belong to the set of a key, with an id that is new.
  abbrev pub IsOther : ℕ × ℕ → List ShredId → List ℕ → ShredId → Type 0
  IsOther key seen raw id =
      (0x59 ≤ length raw)
      × (l.get_shred_id raw ≡ some id)
      × (contains ⦃eq = l.id_eq⦄ seen id ≡ false)
      × ((fec_index : ℕ) × (get_fec_set_index l raw ≡ ok fec_index)
          × (key ≢ (l.id_slot id, fec_index)))

  -- A stream in which the packets of a set come in some order, each with an id that is new, among
  -- at most some number of new packets of other sets and any number of packets that were seen.
  pub data Comes (key : ℕ × ℕ) : ℕ → List ShredId → List (List ℕ) → List (List ℕ) → Type 0 where
    nothing : {k : ℕ} {seen : List ShredId} → Comes key k seen [] []
    own :
        {k : ℕ} {seen : List ShredId} {raw : List ℕ} {stream packets : List (List ℕ)} {id : ShredId}
        → IsNew l host key.0 seen raw id
        → Comes key k (id ∷ seen) stream packets
        → Comes key k seen (raw ∷ stream) (raw ∷ packets)
    again :
        {k : ℕ} {seen : List ShredId} {raw : List ℕ} {stream packets : List (List ℕ)} {id : ShredId}
        → l.get_shred_id raw ≡ some id
        → contains ⦃eq = l.id_eq⦄ seen id ≡ true
        → Comes key k seen stream packets
        → Comes key k seen (raw ∷ stream) packets
    other :
        {k : ℕ} {seen : List ShredId} {raw : List ℕ} {stream packets : List (List ℕ)} {id : ShredId}
        → IsOther key seen raw id
        → Comes key k (id ∷ seen) stream packets
        → Comes key (suc k) seen (raw ∷ stream) packets

  -- At most so many batches were sent since.
  abbrev pub Grew : ℕ → ShredProcessor ShredId Entry → ShredProcessor ShredId Entry → Type 0
  Grew k self next =
      (extra : List (EntriesWithMeta Entry)) × (next.sent ≡ self.sent ++ extra) × (length extra ≤ k)

  pub Grew-refl :
      (self next : ShredProcessor ShredId Entry) → next.sent ≡ self.sent → Grew 0 self next
  Grew-refl self next e = ([], e ∙ sym (append-nil self.sent), omega arith)

  pub Grew-trans :
      (j k : ℕ) (self next last : ShredProcessor ShredId Entry)
      → Grew j self next
      → Grew k next last
      → Grew (j + k) self last
  Grew-trans j k self next last (xs, p, few) (ys, q, few') = (
    xs ++ ys,
    q ∙ ap (λ sent. sent ++ ys) p ∙ append_assoc self.sent xs ys,
    omega (arith, length-append xs ys),
  )

  Effect-Distinct :
      (self : ShredProcessor ShredId Entry) (key : ℕ × ℕ) (next : ShredProcessor ShredId Entry)
      → Distinct self.fec_sets
      → Effect self key next
      → Distinct next.fec_sets
  unfolding finish
  Effect-Distinct self key next d (inl e) = subst (λ s. Distinct s.fec_sets) (sym e) d
  Effect-Distinct self key next d (inr (inl e)) = subst (λ s. Distinct s.fec_sets) (sym e) d
  Effect-Distinct self key next d (inr (inr (n, entries, e))) =
      subst (λ s. Distinct s.fec_sets) (sym e) (remove-Distinct key self.fec_sets d)

  inserted_other :
      (self next : ShredProcessor ShredId Entry) (key : ℕ × ℕ) (slot fec_index : ℕ) (raw : List ℕ)
      → insert l host self slot raw ≡ ok next
      → get_fec_set_index l raw ≡ ok fec_index
      → Distinct self.fec_sets
      → key ≢ (slot, fec_index)
      → Distinct next.fec_sets
        × Grew 1 self next
        × (lookup key next.fec_sets ≡ lookup key self.fec_sets)
        × (next.uniqueness ≡ self.uniqueness)
  unfolding count_shred
  inserted_other self next key slot fec_index raw h f d ne =
      let (index, j, fec_set, _, _, r, effect) = insert-Inserted l host self slot raw next h in
      (
        Effect-Distinct _ (slot, j) next (insert-Distinct (slot, j) fec_set self.fec_sets d) effect,
        Effect-sent _ (slot, j) next effect,
        insert-lookup_ne l host self slot raw next key fec_index h f d ne,
        insert-uniqueness l host self slot raw next h,
      )

module _ {Shred ShredId Entry : Type 0} (l : Ledger Shred ShredId) (host : Host Entry)
    (doc : IsDocumented l) (safe : NeverPanics l) (kept : KeepsHeaders l)
    (quiet : host.tracing ≡ false) where
  -- Such a packet is collected, and leaves the set alone.
  pub collect_other :
      (self : ShredProcessor ShredId Entry) (key : ℕ × ℕ) (raw : List ℕ) (id : ShredId)
      → IsOther l host key self.uniqueness raw id
      → Distinct self.fec_sets
      → (next : ShredProcessor ShredId Entry) × (collect l host self raw ≡ ok next)
        × Distinct next.fec_sets
        × Grew l host 1 self next
        × (lookup key next.fec_sets ≡ lookup key self.fec_sets)
        × (next.uniqueness ≡ id ∷ self.uniqueness)
  collect_other self key raw id (long, p, fresh, (fec_index, f, ne)) d =
      let (next, q) = collect_total l host doc safe kept quiet self raw (λ e. omega arith) in
      let taken =
        collect_taken l host self (l.id_slot id, fec_index) raw id (omega arith) (p, refl, fresh) in
      let (distinct, grew, same, ids) =
        inserted_other l host (marked l host self id) next key (l.id_slot id) fec_index raw
          (sym taken ∙ q) f d ne in
      (next, q, distinct, grew, same, ids)
