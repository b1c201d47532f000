-- ===== src/Processor/Deliver/Hold.antt =====
-- What a set holds while its packets come in.
use shreds.Base.{
  ℕ, ◌+◌, ◌≤◌, ◌≡◌, refl, ap, ◌∙◌, Bool, true, false, ◌&&◌, ◌||◌, leb, nat_beq, nat_eq, pair_eq,
  if◌then◌else◌, none, some, List, [], ◌∷◌, ◌++◌, length, map, ok, length-map, arith,
}
use shreds.Base.Assoc.{lookup, insert as insert_key}
use shreds.Base.Sort.{find_key, DistinctKeys}
use shreds.Ledger.{Ledger, HasHeader}
use shreds.Shred.Header.{is_shred_data, get_shred_index, get_fec_set_index}
use shreds.Shred.Header.Fields.{header_of}
use shreds.Processor.State.{
  FecSet, ShredProcessor, Host, RawShreds, new_fec_set, is_fec_set_complete,
}
use shreds.Processor.Collect.{or_new, absorb, add_data, add_coding, learn_counts, with_counts}
use shreds.Processor.Collect.Panics.{get_last_in_slot_total}
use shreds.Processor.Collect.Late.{header_ok}

module _ {Shred ShredId : Type 0} (l : Ledger Shred ShredId) where
  -- A data shred of the set: its packet is a whole shred that parses back to it, and the header says
  -- its index and its set.
  pub record IsDataOf (fec_index : ℕ) (shred : Shred) : Type 0 where
    pub whole : HasHeader (l.payload shred)
    pub is_data : is_shred_data l (l.payload shred) ≡ true
    pub parses : l.new_from_serialized_shred (l.payload shred) ≡ ok shred
    pub own_index : get_shred_index l (l.payload shred) ≡ ok (l.index shred)
    pub own_set : get_fec_set_index l (l.payload shred) ≡ ok fec_index

  -- A coding packet of the set, which announces its counts.
  pub record IsCodingOf (fec_index num_data num_coding : ℕ) (raw : List ℕ) : Type 0 where
    pub whole : 0x59 ≤ length raw
    pub is_coding : is_shred_data l raw ≡ false
    pub own_set : get_fec_set_index l raw ≡ ok fec_index
    pub data_count : (header_of raw).num_data_shreds ≡ num_data
    pub coding_count : (header_of raw).num_coding_shreds ≡ num_coding

  abbrev pub keyed : Shred → ℕ × List ℕ
  keyed shred = (l.index shred, l.payload shred)

  -- The set holds these data shreds in the order in which they came, and it knows its counts if the
  -- coding shred came.
  pub record Holds (num_data num_coding : ℕ) (datas : List Shred) (coded : Bool) (fec_set : FecSet)
      : Type 0 where
    pub stored : fec_set.data_shreds ≡ map keyed datas
    pub coding : length fec_set.coding_shreds ≡ (if coded then 1 else 0)
    pub expected_data : fec_set.num_expected_data ≡ (if coded then some num_data else none)
    pub expected_coding : fec_set.num_expected_coding ≡ (if coded then some num_coding else none)
    pub not_processed : fec_set.processed ≡ false

  pub new_fec_set-Holds : (n m : ℕ) → Holds n m [] false new_fec_set
  new_fec_set-Holds n m = record {
    stored = refl;
    coding = refl;
    expected_data = refl;
    expected_coding = refl;
    not_processed = refl;
  }

  -- Such a set is complete when the coding shred and all data shreds are there.
  pub is_fec_set_complete-Holds :
      (n m : ℕ) (datas : List Shred) (coded : Bool) (fec_set : FecSet)
      → Holds n m datas coded fec_set
      → is_fec_set_complete fec_set
        ≡ (coded && (nat_beq (length datas) n || leb (n + m) (length datas + 1)))
  unfolding is_fec_set_complete
  is_fec_set_complete-Holds n m datas true fec_set h =
      rw (h.stored, h.coding, h.expected_data, h.expected_coding, length-map keyed datas) refl
  is_fec_set_complete-Holds n m datas false fec_set h = rw (h.expected_data) refl

  find_key-append :
      (k : ℕ) (shreds rest : List Shred) (shred : Shred)
      → find_key l.index k (shreds ++ (shred ∷ rest)) ≡ none
      → nat_beq (l.index shred) k ≡ false
  find_key-append k [] rest shred h = ground arith
  find_key-append k (x ∷ shreds) rest shred h = ground (arith, find_key-append k shreds rest shred)

  -- An index that differs from those before it adds an element at the end.
  insert_key-keyed :
      (datas rest : List Shred) (shred : Shred)
      → DistinctKeys l.index (datas ++ (shred ∷ rest))
      → insert_key (l.index shred) (l.payload shred) (map keyed datas)
        ≡ map keyed (datas ++ (shred ∷ []))
  unfolding insert_key
  insert_key-keyed [] rest shred d = refl
  insert_key-keyed (x ∷ datas) rest shred d = ground (
    arith,
    find_key-append (l.index x) datas rest shred d.0,
    insert_key-keyed datas rest shred d.1,
  )

  add_data-Holds :
      (n m fec_index : ℕ) (datas rest : List Shred) (coded : Bool) (fec_set : FecSet)
      (shred : Shred)
      → Holds n m datas coded fec_set
      → IsDataOf fec_index shred
      → DistinctKeys l.index (datas ++ (shred ∷ rest))
      → (next : FecSet) × (add_data l fec_set (l.index shred) (l.payload shred) ≡ ok next)
        × Holds n m (datas ++ (shred ∷ [])) coded next
  unfolding add_data
  add_data-Holds n m fec_index datas rest coded fec_set shred h s d =
      let (is_last, p) = get_last_in_slot_total l (l.payload shred) s.whole.0 in
      (
        record fec_set {
          data_shreds = insert_key (l.index shred) (l.payload shred) fec_set.data_shreds;
          is_last_in_slot = fec_set.is_last_in_slot || is_last;
        },
        rw p refl,
        record {
          stored =
              ap (insert_key (l.index shred) (l.payload shred)) h.stored
              ∙ insert_key-keyed datas rest shred d;
          coding = h.coding;
          expected_data = h.expected_data;
          expected_coding = h.expected_coding;
          not_processed = h.not_processed;
        },
      )

  add_coding-Holds :
      (n m fec_index index : ℕ) (datas : List Shred) (fec_set : FecSet) (raw : List ℕ)
      → Holds n m datas false fec_set
      → IsCodingOf fec_index n m raw
      → (next : FecSet) × (add_coding l fec_set index raw ≡ ok next) × Holds n m datas true next
  unfolding add_coding learn_counts insert_key
  add_coding-Holds n m fec_index index datas fec_set raw h c = (
    with_counts (record fec_set { coding_shreds = insert_key index raw fec_set.coding_shreds })
        (header_of raw),
    rw (h.expected_data, header_ok l raw c.is_coding c.whole) refl,
    record {
      stored = h.stored;
      coding = length-insert_key index raw fec_set.coding_shreds h.coding;
      expected_data = ap some c.data_count;
      expected_coding = ap some c.coding_count;
      not_processed = h.not_processed;
    },
  )
    where
      length-insert_key :
          (k : ℕ) (r : List ℕ) (m : RawShreds) → length m ≡ 0 → length (insert_key k r m) ≡ 1
      length-insert_key k r [] e = refl
      length-insert_key k r (x ∷ m) e = absurd (omega arith)

module _ {Shred ShredId Entry : Type 0} (l : Ledger Shred ShredId) (host : Host Entry) where
  -- The set of a key, or the new one, holds these shreds.
  abbrev pub SetHolds : ℕ → ℕ → ℕ × ℕ → ShredProcessor ShredId Entry → List Shred → Bool → Type 0
  SetHolds n m key self datas coded = Holds l n m datas coded (or_new (lookup key self.fec_sets))

  pub absorb_data :
      (n m : ℕ) (key : ℕ × ℕ) (self : ShredProcessor ShredId Entry) (datas rest : List Shred)
      (coded : Bool) (shred : Shred)
      → SetHolds n m key self datas coded
      → IsDataOf l key.1 shred
      → DistinctKeys l.index (datas ++ (shred ∷ rest))
      → (next : FecSet) × (absorb l host self key (l.index shred) (l.payload shred) ≡ ok next)
        × Holds l n m (datas ++ (shred ∷ [])) coded next
  unfolding absorb
  absorb_data n m key self datas rest coded shred h s d =
      let (next, p, held) = add_data-Holds l n m key.1 datas rest coded _ shred h s d in
      (next, rw (s.is_data) p, held)

  pub absorb_coding :
      (n m : ℕ) (key : ℕ × ℕ) (self : ShredProcessor ShredId Entry) (index : ℕ) (datas : List Shred)
      (raw : List ℕ)
      → SetHolds n m key self datas false
      → IsCodingOf l key.1 n m raw
      → (next : FecSet) × (absorb l host self key index raw ≡ ok next) × Holds l n m datas true next
  unfolding absorb
  absorb_coding n m key self index datas raw h c =
      let (next, p, held) = add_coding-Holds l n m key.1 index datas _ raw h c in
      (next, rw (c.is_coding) p, held)
