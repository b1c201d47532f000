-- ===== src/Processor/Deliver/Whole.antt =====
-- All packets of a set, one after the other.
use mathlib.Core.List.{Permᴰ}
use mathlib.Core.List.Permᴰ
use shreds.Base.{
  ℕ, ◌≤◌, ◌<◌, ◌≡◌, ◌∙◌, Bool, true, false, All, List, [], ◌∷◌, ◌++◌, length, length-append, ok,
  arith,
}
use shreds.Base.Sort.{DistinctKeys, IsStrict}
use shreds.Base.Sort.Order.{IsStrict-DistinctKeys, DistinctKeys-perm, All-perm}
use shreds.Ledger.{Ledger}
use shreds.Processor.State.{FecSet, Host, is_fec_set_complete}
use shreds.Processor.Process.{decode}
use shreds.Processor.Process.Order.{length-perm}
use shreds.Processor.Deliver.Hold.{IsDataOf, Holds, is_fec_set_complete-Holds}

All-middle : {A : Type 0} (P : A → Type 0) (xs ys : List A) (y : A) → All P (xs ++ (y ∷ ys)) → P y
All-middle P [] ys y h = h.0
All-middle P (x ∷ xs) ys y h = All-middle P xs ys y h.1

-- Data shreds that carry a batch, in the order of their indices, and the number of coding shreds that is
-- announced with them.
pub record IsSender {Shred ShredId Entry : Type 0} (l : Ledger Shred ShredId) (host : Host Entry)
    (key : ℕ × ℕ) (m : ℕ) (sender : List Shred) (entries : List Entry) : Type 0 where
  pub some_coding : 1 ≤ m
  pub good : All (IsDataOf l key.1) sender
  pub strict : IsStrict l.index sender
  pub some_data : 1 ≤ length sender
  pub decodes : decode l host sender ≡ ok entries

module _ {Shred ShredId Entry : Type 0} (l : Ledger Shred ShredId) (host : Host Entry) (key : ℕ × ℕ)
    (m : ℕ) (sender : List Shred) (entries : List Entry)
    (is : IsSender l host key m sender entries) where
  -- The next data shred, and that its index is new.
  pub next_data :
      (datas rest : List Shred) (shred : Shred)
      → Permᴰ (datas ++ (shred ∷ rest)) sender
      → IsDataOf l key.1 shred × DistinctKeys l.index (datas ++ (shred ∷ rest))
  next_data datas rest shred p = (
    All-middle (IsDataOf l key.1) datas rest shred
        (All-perm (IsDataOf l key.1) (Permᴰ.symm p) is.good),
    DistinctKeys-perm l.index (Permᴰ.symm p) (IsStrict-DistinctKeys l.index sender is.strict),
  )

  pub still_open :
      (datas : List Shred) (coded : Bool) (fec_set : FecSet)
      → Holds l (length sender) m datas coded fec_set
      → (coded ≡ true → length datas < length sender)
      → is_fec_set_complete fec_set ≡ false
  still_open datas coded fec_set h missing =
      is_fec_set_complete-Holds l (length sender) m datas coded fec_set h
      ∙ ground (arith, is.some_coding)

  pub fewer :
      (datas xs rest : List Shred) (x : Shred)
      → Permᴰ (datas ++ (x ∷ (xs ++ rest))) sender
      → 1 ≤ length rest
      → length (datas ++ (x ∷ [])) < length sender
  fewer datas xs rest x p h = omega (
    arith,
    length-perm p,
    length-append datas (x ∷ (xs ++ rest)),
    length-append datas (x ∷ []),
    length-append xs rest,
  )

  pub complete_now :
      (datas : List Shred) (fec_set : FecSet)
      → Holds l (length sender) m datas true fec_set
      → Permᴰ datas sender
      → is_fec_set_complete fec_set ≡ true
  complete_now datas fec_set h p =
      is_fec_set_complete-Holds l (length sender) m datas true fec_set h
      ∙ ground (arith, length-perm p)

  pub good_datas : (datas : List Shred) → Permᴰ datas sender → All (IsDataOf l key.1) datas
  good_datas datas p = All-perm (IsDataOf l key.1) (Permᴰ.symm p) is.good
