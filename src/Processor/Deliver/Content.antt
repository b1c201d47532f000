-- ===== src/Processor/Deliver/Content.antt =====
-- What a whole set is processed to.
use mathlib.Core.List.{Permᴰ}
use mathlib.Core.List.Permᴰ
use shreds.Base.{
  ℕ, ◌≤◌, ◌≡◌, refl, ap, sym, ◌∙◌, subst, false, true, All, some, List, [], ◌∷◌, ◌++◌, length, map,
  filter_map, flat_map, ok, ok?, arith,
}
use shreds.Base.Bytes.{to_le_bytes}
use shreds.Base.Sort.{DistinctKeys, IsStrict}
use shreds.Base.Sort.Order.{
  sort_by_key-perm_eq, sort_by_key-IsStrict_eq, IsStrict-DistinctKeys, DistinctKeys-perm,
}
use shreds.Ledger.{Ledger, IsDocumented, NeverPanics}
use shreds.Shred.Entries.{max_entries, deserialize_entries}
use shreds.Shred.Entries.Decode.{deserialize_entries-encode}
use shreds.Shred.Payload.{deshred}
use shreds.Shred.Payload.Join.{data_or_default, HaveHeaders, deshred_lem}
use shreds.Processor.State.{FecSet, Host, RawShreds}
use shreds.Processor.Process.{unwrap_or, gather, decode}
use shreds.Processor.Process.Order.{parsed, gather-parsed, filter_map-perm, length-perm}
use shreds.Processor.Deliver.Hold.{IsDataOf, Holds, keyed}

-- A `HashMap` yields each of its values once.
abbrev pub YieldsAll : {Entry : Type 0} → Host Entry → Type 0
YieldsAll host = (m : RawShreds) → Permᴰ (map (λ e. e.1) m) (host.values m)

module _ {Shred ShredId Entry : Type 0} (l : Ledger Shred ShredId) (host : Host Entry)
    (safe : NeverPanics l) (doc : IsDocumented l) where
  parsed-keyed :
      (fec_index : ℕ) (datas : List Shred)
      → All (IsDataOf l fec_index) datas
      → filter_map
          (λ raw. ok? (l.new_from_serialized_shred raw))
          (map (λ e. e.1) (map (keyed l) datas))
        ≡ datas
  parsed-keyed fec_index [] h = refl
  parsed-keyed fec_index (shred ∷ datas) h = rw (h.0.parses, parsed-keyed fec_index datas h.1) refl

  -- The shreds that came are gathered in the order in which they were made.
  pub gather-Holds :
      (n m fec_index : ℕ) (sender datas : List Shred) (fec_set : FecSet)
      → YieldsAll host
      → Holds l n m datas true fec_set
      → n ≡ length sender
      → Permᴰ datas sender
      → IsStrict l.index sender
      → All (IsDataOf l fec_index) datas
      → gather l host fec_set ≡ ok sender
  gather-Holds n m fec_index sender datas fec_set yields h e p strict good =
      gather-parsed l host safe fec_set
        (omega (arith, length-perm q, length-perm p, ap (λ o. unwrap_or o 1) h.expected_data))
      ∙ ap ok (
          sym (sort_by_key-perm_eq l.index q distinct)
          ∙ sort_by_key-perm_eq l.index p distinct
          ∙ sort_by_key-IsStrict_eq l.index sender strict)
    where
      distinct : DistinctKeys l.index datas
      distinct =
          DistinctKeys-perm l.index (Permᴰ.symm p) (IsStrict-DistinctKeys l.index sender strict)

      q : Permᴰ datas (parsed l host safe (host.values fec_set.data_shreds))
      q =
          subst (λ xs. Permᴰ xs (parsed l host safe (host.values fec_set.data_shreds)))
            (ap (λ m. filter_map (λ raw. ok? (l.new_from_serialized_shred raw)) (map (λ e. e.1) m))
                h.stored
              ∙ parsed-keyed fec_index datas good)
            (filter_map-perm (λ raw. ok? (l.new_from_serialized_shred raw))
              (yields fec_set.data_shreds))

  have_headers :
      (fec_index : ℕ) (datas : List Shred) → All (IsDataOf l fec_index) datas → HaveHeaders l datas
  have_headers fec_index [] h = tt
  have_headers fec_index (shred ∷ datas) h = (h.0.whole, have_headers fec_index datas h.1)

  decode_joined :
      (sender : List Shred) (bytes : List ℕ)
      → deshred l sender ≡ ok bytes
      → decode l host sender ≡ deserialize_entries host.read_entry host.tracing bytes
  unfolding decode
  decode_joined sender bytes p = rw (decode, p) refl

  -- Shreds that carry an encoded batch decode to it.
  pub decode-encode :
      (fec_index : ℕ) (sender : List Shred) (encode : Entry → List ℕ) (entries : List Entry)
      (padding : List ℕ)
      → All (IsDataOf l fec_index) sender
      → ((entry : Entry) (rest : List ℕ)
          → host.read_entry (encode entry ++ rest) ≡ (some entry, rest))
      → host.tracing ≡ false
      → length entries ≤ max_entries
      → flat_map (data_or_default l) sender
        ≡ to_le_bytes 8 (length entries) ++ (flat_map encode entries ++ padding)
      → decode l host sender ≡ ok entries
  decode-encode fec_index sender encode entries padding good reads quiet few carries =
      decode_joined sender _ ((deshred_lem l doc sender (have_headers fec_index sender good)).0)
      ∙ rw (carries, quiet)
          (deserialize_entries-encode host.read_entry encode reads entries padding few)
