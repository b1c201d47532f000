-- ===== src/Service/Trace.antt =====
-- A loop that collects packets: what it hands to the channel, one batch a packet at most.
use mathlib.Core.List.{append-nil}
use shreds.Base.{
  ℕ, ◌≤◌, ◌≡◌, ap, ◌∙◌, sym, List, [], ◌++◌, length, drop, drop-append, Outcome, ok, ok-inj,
  for_each, for_each-invariant, inl, inr, arith,
}
use shreds.Ledger.{Ledger}
use shreds.Processor.State.{EntriesWithMeta, ShredProcessor, Host, new}
use shreds.Shred.Header.{ShredError}
use shreds.Processor.Process.Branches.{Effect-sent}
use shreds.Processor.Collect.{count_shred, collect}
use shreds.Processor.Collect.Invariant.{Inv, new-Inv, collect-Inv}
use shreds.Processor.Collect.Unique.{insert-Inserted, collect_cases, marked}
use shreds.Service.{newly_sent, packet_of}

module _ {Shred ShredId Entry : Type 0} (l : Ledger Shred ShredId) (host : Host Entry) where
  -- A packet that is collected appends one batch to what was sent, or nothing.
  pub collect-sent :
      (self : ShredProcessor ShredId Entry) (raw : List ℕ) (next : ShredProcessor ShredId Entry)
      → collect l host self raw ≡ ok next
      → (next.sent ≡ self.sent ++ newly_sent self next) × (length (newly_sent self next) ≤ 1)
  unfolding count_shred
  collect-sent self raw next h =
      let (added, p, one) = grows in
      let q : newly_sent self next ≡ added =
        ap (drop (length self.sent)) p ∙ drop-append self.sent added in
      (p ∙ ap (λ r. self.sent ++ r) (sym q), rw q one)
    where
      grows :
          (added : List (EntriesWithMeta Entry)) × (next.sent ≡ self.sent ++ added)
          × (length added ≤ 1)
      grows = elim (collect_cases l host self raw) [
        | inl dropped ↦ (
          [],
          ap (λ (s : ShredProcessor ShredId Entry). s.sent)
                (ok-inj {E = ShredError} (sym h ∙ dropped))
              ∙ sym (append-nil self.sent),
          omega arith,
        )
        | inr (id, _, taken) ↦
            let (index, fec_index, fec_set, _, _, r, effect) =
              insert-Inserted l host (marked l host self id) (l.id_slot id) raw next
                (sym taken ∙ h) in
            Effect-sent _ (l.id_slot id, fec_index) next effect
      ]

  -- The loop over the datagrams so far.
  abbrev pub collected : List (List ℕ) → Outcome ShredError (ShredProcessor ShredId Entry)
  collected = for_each (λ self datagram. collect l host self (packet_of datagram)) new

  pub collected-Inv :
      (datagrams : List (List ℕ)) (self : ShredProcessor ShredId Entry)
      → collected datagrams ≡ ok self
      → Inv l host self
  collected-Inv datagrams self =
      for_each-invariant (Inv l host) (λ self datagram. collect l host self (packet_of datagram))
        (λ self datagram next. collect-Inv l host self (packet_of datagram) next) new self datagrams
        (new-Inv l host)
