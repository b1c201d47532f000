-- ===== src/Processor/Process/Order.antt =====
-- The order in which a `HashMap` yields the shreds of a set does not reach the entries.
use mathlib.Core.List.{Permᴰ}
use mathlib.Core.List.Permᴰ
use shreds.Base.{
  ℕ, suc, ◌≤◌, ◌≡◌, refl, ap, sym, ◌∙◌, if◌then◌else◌, Option, none, some, List, [], ◌∷◌, length,
  filter_map, keep, subst, ok, ok?, ◌>>=◌, arith, pair_eq,
}
use mathlib.Core.Path.{ap₂, subst₂, fun_ext}
use shreds.Base.Assoc.{lookup}
use shreds.Base.Sort.{sort_by_key, DistinctKeys}
use shreds.Base.Sort.Order.{sort_by_key-perm_eq}
use shreds.Ledger.{Ledger, NeverPanics}
use shreds.Processor.State.{FecSet, ShredProcessor, Host, RawShreds}
use shreds.Processor.Process.{
  unwrap_or, parse_all, add_recovered, gather, decode, conclude, process_fec_set,
}

keep-perm :
    {B : Type 0} (o : Option B) {xs ys : List B} → Permᴰ xs ys → Permᴰ (keep o xs) (keep o ys)
keep-perm none p = p
keep-perm (some y) p = Permᴰ.cons refl p

keep-swap :
    {B : Type 0} (o o' : Option B) (ys : List B) → Permᴰ (keep o (keep o' ys)) (keep o' (keep o ys))
keep-swap none o' ys = keep-perm o' (Permᴰ.refl ys)
keep-swap (some y) none ys = Permᴰ.refl (y ∷ ys)
keep-swap (some y) (some z) ys = Permᴰ.swap refl refl

module _ {A B : Type 0} (f : A → Option B) where
  pub filter_map-perm : {xs ys : List A} → Permᴰ xs ys → Permᴰ (filter_map f xs) (filter_map f ys)
  filter_map-perm Permᴰ.nil = Permᴰ.nil
  filter_map-perm (Permᴰ.cons {a = a} {l₁ = l} {l₂ = m} e p) =
      subst (λ z. Permᴰ (keep (f a) (filter_map f l)) (keep (f z) (filter_map f m))) e
        (keep-perm (f a) (filter_map-perm p))
  filter_map-perm (Permᴰ.swap {a = a} {b = b} {l = l} e e') =
      subst₂
        (λ x y.
          Permᴰ (keep (f a) (keep (f b) (filter_map f l)))
            (keep (f y) (keep (f x) (filter_map f l))))
        e e' (keep-swap (f a) (f b) (filter_map f l))
  filter_map-perm (Permᴰ.trans p q) = Permᴰ.trans (filter_map-perm p) (filter_map-perm q)

module _ {Shred ShredId Entry : Type 0} (l : Ledger Shred ShredId) (host : Host Entry)
    (safe : NeverPanics l) where
  -- The shreds that parse.
  abbrev pub parsed : List (List ℕ) → List Shred
  parsed = filter_map (λ raw. ok? (l.new_from_serialized_shred raw))

  pub parse_all-parsed : (raws : List (List ℕ)) → parse_all l host raws ≡ ok (parsed raws)
  unfolding parse_all
  parse_all-parsed [] = refl
  parse_all-parsed (raw ∷ raws) = ground (arith, parse_all-parsed raws, safe.parses raw)

  -- With as many shreds as expected there is nothing to recover.
  pub gather-parsed :
      (fec_set : FecSet)
      → unwrap_or fec_set.num_expected_data 1 ≤ length (parsed (host.values fec_set.data_shreds))
      → gather l host fec_set ≡ ok (sort_by_key l.index (parsed (host.values fec_set.data_shreds)))
  unfolding gather add_recovered
  gather-parsed fec_set enough =
      rw (parse_all-parsed (host.values fec_set.data_shreds)) (ground arith)

pub length-perm : {A : Type 0} {xs ys : List A} → Permᴰ xs ys → length xs ≡ length ys
length-perm Permᴰ.nil = refl
length-perm (Permᴰ.cons e p) = ap suc (length-perm p)
length-perm (Permᴰ.swap e f) = refl
length-perm (Permᴰ.trans p q) = length-perm p ∙ length-perm q

-- The host with another order of a map's values.
abbrev pub reorder : {Entry : Type 0} → Host Entry → (RawShreds → List (List ℕ)) → Host Entry
reorder host v = record host { values = v }

pub process_found :
    {Shred ShredId Entry : Type 0} (l : Ledger Shred ShredId) (host : Host Entry)
    (self : ShredProcessor ShredId Entry) (key : ℕ × ℕ) (fec_set : FecSet)
    → lookup key self.fec_sets ≡ some fec_set
    → process_fec_set l host self key ≡ (
        if fec_set.processed then ok self else (gather l host fec_set >>= conclude l host self key))
unfolding process_fec_set
process_found l host self key fec_set here = ground arith

module _ {Shred ShredId Entry : Type 0} (l : Ledger Shred ShredId) (host : Host Entry)
    (safe : NeverPanics l) where
  gather-order :
      (v : RawShreds → List (List ℕ)) (fec_set : FecSet)
      → Permᴰ (host.values fec_set.data_shreds) (v fec_set.data_shreds)
      → unwrap_or fec_set.num_expected_data 1
        ≤ length (parsed l host safe (host.values fec_set.data_shreds))
      → DistinctKeys l.index (parsed l host safe (host.values fec_set.data_shreds))
      → gather l (reorder host v) fec_set ≡ gather l host fec_set
  gather-order v fec_set p enough distinct =
      gather-parsed l (reorder host v) safe fec_set (omega (arith, length-perm q))
      ∙ ap ok (sym (sort_by_key-perm_eq l.index q distinct))
      ∙ sym (gather-parsed l host safe fec_set enough)
    where
      q :
          Permᴰ
            (parsed l host safe (host.values fec_set.data_shreds))
            (parsed l host safe (v fec_set.data_shreds))
      q = filter_map-perm (λ raw. ok? (l.new_from_serialized_shred raw)) p

  conclude-order :
      (v : RawShreds → List (List ℕ)) (self : ShredProcessor ShredId Entry) (key : ℕ × ℕ)
      (shreds : List Shred)
      → conclude l (reorder host v) self key shreds ≡ conclude l host self key shreds
  unfolding conclude decode
  conclude-order v self key shreds = refl

  -- Whatever order the map yields the data shreds of a set in, the result of processing the set is
  -- the same, the entries that it sends among it: for a crate that does not panic, if enough of the
  -- shreds parse for nothing to be recovered, and their indices differ.
  pub process_fec_set-order :
      (v : RawShreds → List (List ℕ)) (self : ShredProcessor ShredId Entry) (key : ℕ × ℕ)
      (fec_set : FecSet)
      → lookup key self.fec_sets ≡ some fec_set
      → Permᴰ (host.values fec_set.data_shreds) (v fec_set.data_shreds)
      → unwrap_or fec_set.num_expected_data 1
        ≤ length (parsed l host safe (host.values fec_set.data_shreds))
      → DistinctKeys l.index (parsed l host safe (host.values fec_set.data_shreds))
      → process_fec_set l (reorder host v) self key ≡ process_fec_set l host self key
  process_fec_set-order v self key fec_set here p enough distinct =
      rw
        (
          process_found l (reorder host v) self key fec_set here,
          process_found l host self key fec_set here,
        )
        (ap (λ r. if fec_set.processed then ok self else r)
          (ap₂ (λ m k. m >>= k) (gather-order v fec_set p enough distinct)
            (fun_ext (conclude-order v self key))))
