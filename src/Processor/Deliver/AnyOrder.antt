-- ===== src/Processor/Deliver/AnyOrder.antt =====
-- A whole set through `collect`, from its packets in a stream to the batch that is sent.
use mathlib.Core.List.{Permᴰ}
use shreds.Base.{
  ℕ, ◌≤◌, ◌≡◌, ◌∙◌, subst, sym, false, All, nat_eq, pair_eq, none, some, List, [], ◌∷◌, ◌++◌,
  length, map, flat_map, ok,
}
use shreds.Base.Assoc.{lookup, Distinct}
use shreds.Base.Bytes.{to_le_bytes}
use shreds.Base.Sort.{IsStrict}
use shreds.Ledger.{Ledger, IsDocumented, NeverPanics, KeepsHeaders}
use shreds.Shred.Entries.{max_entries}
use shreds.Shred.Payload.Join.{data_or_default}
use shreds.Processor.State.{ShredProcessor, Host}
use shreds.Processor.Collect.{or_new, collect_all}
use shreds.Processor.Deliver.Hold.{IsDataOf, IsCodingOf, Holds, new_fec_set-Holds}
use shreds.Processor.Deliver.Round.{At}
use shreds.Processor.Deliver.Content.{YieldsAll, decode-encode}
use shreds.Processor.Deliver.Last.{Delivers}
use shreds.Processor.Deliver.Others.{Comes}
use shreds.Processor.Deliver.Whole.{IsSender}
use shreds.Processor.Deliver.Stream.{quiet_datas}
use shreds.Processor.Deliver.Close.{coding_on, Among-Grew}

module _ {Shred ShredId Entry : Type 0} (l : Ledger Shred ShredId) (host : Host Entry)
    (safe : NeverPanics l) (doc : IsDocumented l) (kept : KeepsHeaders l) (yields : YieldsAll host)
    (quiet : host.tracing ≡ false) (encode : Entry → List ℕ)
    (reads : (entry : Entry) (rest : List ℕ)
      → host.read_entry (encode entry ++ rest) ≡ (some entry, rest)) where
  -- A set of data shreds in the order of their indices carries an encoded batch of at most 10,000
  -- entries. Its packets come in a stream in any order, with one coding packet that announces as many
  -- data shreds and at least one coding shred, each with an id that is new; between, before and behind
  -- them come any packets that were seen and at most `k` new packets of other sets, of 0x59 bytes or
  -- more. The processor's map has
  -- distinct keys and not this set. Then every call returns, the batch is sent among at most `k` other
  -- batches, and the set is not in the map at the end. The crate parses and recovers without a panic,
  -- gives whole shreds, and parses each packet of the set to its shred; bincode's reader gives back
  -- an encoded entry and what follows it, a map yields its values in any order, and trace messages are
  -- off, and the constants are as documented.
  pub collect_all-Delivers :
      (key : ℕ × ℕ) (m k : ℕ) (sender : List Shred) (entries : List Entry) (padding : List ℕ)
      (self : ShredProcessor ShredId Entry) (before after : List Shred) (coding : List ℕ)
      (stream : List (List ℕ))
      → 1 ≤ m
      → All (IsDataOf l key.1) sender
      → IsStrict l.index sender
      → 1 ≤ length sender
      → length entries ≤ max_entries
      → flat_map (data_or_default l) sender
        ≡ to_le_bytes 8 (length entries) ++ (flat_map encode entries ++ padding)
      → Distinct self.fec_sets
      → lookup key self.fec_sets ≡ none
      → Permᴰ (before ++ after) sender
      → IsCodingOf l key.1 (length sender) m coding
      → Comes l host key k self.uniqueness stream
          (map l.payload before ++ (coding ∷ map l.payload after))
      → (last : ShredProcessor ShredId Entry) × (collect_all l host stream self ≡ ok last)
        × Delivers k key entries self last
  collect_all-Delivers key m k sender entries padding self before after coding stream some_coding
        good strict some_data few carries distinct absent p announced comes =
      let is : IsSender l host key m sender entries = record {
        some_coding = some_coding;
        good = good;
        strict = strict;
        some_data = some_data;
        decodes =
            decode-encode l host safe doc key.1 sender encode entries padding good reads quiet few
              carries;
      } in
      let at : At l host (length sender) m key self [] false = record {
        distinct = distinct;
        holds =
            subst (λ o. Holds l (length sender) m [] false (or_new o)) (sym absent)
              (new_fec_set-Holds l (length sender) m);
      } in
      let c =
        quiet_datas l host safe doc kept quiet yields key m sender entries is k before after []
          false (coding ∷ map l.payload after) stream self at p (λ e. cc) comes in
      let (last, r, among) =
        coding_on l host safe doc kept quiet yields key m sender entries is c.left before after
          coding c.rest c.later c.stands p announced c.comes in
      (
        last,
        c.runs ∙ r,
        Among-Grew l host safe doc kept quiet yields key m sender entries is k c.passed c.left self
            c.later last c.grew among c.few,
      )
