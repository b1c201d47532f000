-- ===== src/Graduates/Filter.antt =====
-- Which transactions the graduates processor sends, and when it panics.
use mathlib.Core.List.{append-nil, append_assoc}
use shreds.Base.{
  ℕ, ◌<◌, ◌≡◌, ◌⊎◌, inl, refl, ap, ◌∙◌, sym, Bool, false, ◌&&◌, ◌==◌, nat_eq, if◌then◌else◌, none,
  some, List, [], ◌∷◌, ◌++◌, get_elem?, get_elem?-lt, length, All, any, select, filter_map,
  flat_map, contains, ok, panicked, >>=-eq-ok, for_each, for_each-for_each, arith,
}
use shreds.Transaction.{CompiledInstruction, VersionedTransaction, first_signature}
use shreds.Graduates.{
  Programs, GraduatesProcessor, uses_program, filter_transaction, send_signature,
  process_transaction, process_entries,
}

-- The program of an instruction is the one that is looked for.
abbrev pub calls : ℕ → List ℕ → CompiledInstruction → Bool
calls program account_keys instruction =
    elim (get_elem? account_keys instruction.program_id_index) [
      | none ↦ false
      | some program_id ↦ program_id == program
    ]

-- A message whose instructions all name a program among its keys.
abbrev pub IsIndexed : VersionedTransaction → Type 0
IsIndexed tx =
    All (λ instruction. instruction.program_id_index < length tx.message.static_account_keys)
      tx.message.instructions

uses_program_ok :
    (program : ℕ) (account_keys : List ℕ) (instructions : List CompiledInstruction)
    → All (λ instruction. instruction.program_id_index < length account_keys) instructions
    → uses_program program account_keys instructions
      ≡ ok (any (calls program account_keys) instructions)
unfolding uses_program
uses_program_ok program account_keys [] h = refl
uses_program_ok program account_keys (instruction ∷ instructions) h =
    let (program_id, p) = get_elem?-lt account_keys instruction.program_id_index h.0 in
    ground (arith, p, uses_program_ok program account_keys instructions h.1)

uses_program-cases :
    (program : ℕ) (account_keys : List ℕ) (instructions : List CompiledInstruction)
    → (uses_program program account_keys instructions
        ≡ ok (any (calls program account_keys) instructions))
      ⊎ (uses_program program account_keys instructions ≡ panicked)
unfolding uses_program
uses_program-cases program account_keys [] = inl refl
uses_program-cases program account_keys (instruction ∷ instructions) =
    ground (arith, uses_program-cases program account_keys instructions)

module _ (programs : Programs) where
  -- A transaction of version 0 that mentions the migration program and calls Raydium's.
  abbrev pub is_graduate : VersionedTransaction → Bool
  is_graduate tx =
      tx.message.is_v0
      && (contains tx.message.static_account_keys programs.pump_migration
          && any (calls programs.raydium_lp tx.message.static_account_keys) tx.message.instructions)

  filter_transaction-eq_ok :
      (tx : VersionedTransaction) (b : Bool)
      → filter_transaction programs tx ≡ ok b
      → b ≡ is_graduate tx
  unfolding filter_transaction
  filter_transaction-eq_ok tx b h = ground (
    arith,
    uses_program-cases programs.raydium_lp tx.message.static_account_keys tx.message.instructions,
  )

  filter_transaction_ok :
      (tx : VersionedTransaction)
      → IsIndexed tx
      → filter_transaction programs tx ≡ ok (is_graduate tx)
  unfolding filter_transaction
  filter_transaction_ok tx h = ground (
    arith,
    uses_program_ok programs.raydium_lp tx.message.static_account_keys tx.message.instructions h,
  )

  abbrev pub graduates : List VersionedTransaction → List ℕ
  graduates txs = filter_map first_signature (select is_graduate txs)

  -- The processor after some transactions.
  abbrev pub after : GraduatesProcessor → List VersionedTransaction → GraduatesProcessor
  after self txs = record self { sent = self.sent ++ graduates txs }

  ok-after :
      (self : GraduatesProcessor) (tx : VersionedTransaction) (matches : Bool)
      → matches ≡ is_graduate tx
      → (if matches then send_signature programs self (first_signature tx) else self)
        ≡ after self (tx ∷ [])
  unfolding send_signature
  ok-after self tx matches e = rw e (ground (arith, append-nil self.sent))

  process_transaction_ok :
      (self : GraduatesProcessor) (tx : VersionedTransaction)
      → IsIndexed tx
      → process_transaction programs self tx ≡ ok (after self (tx ∷ []))
  unfolding process_transaction
  process_transaction_ok self tx h =
      rw (filter_transaction_ok tx h) (ap ok (ok-after self tx (is_graduate tx) refl))

  process_transaction-eq_ok :
      (self next : GraduatesProcessor) (tx : VersionedTransaction)
      → process_transaction programs self tx ≡ ok next
      → next ≡ after self (tx ∷ [])
  unfolding process_transaction
  process_transaction-eq_ok self next tx h =
      let (matches, p, q) = >>=-eq-ok (filter_transaction programs tx) _ h in
      let step = ok-after self tx matches (filter_transaction-eq_ok tx matches p) in cc (q, step)

  after-after :
      (self : GraduatesProcessor) (tx : VersionedTransaction) (txs : List VersionedTransaction)
      → after (after self (tx ∷ [])) txs ≡ after self (tx ∷ txs)
  after-after self tx txs =
      ap {A = List ℕ} {B = GraduatesProcessor} (λ sigs. record { sent = sigs })
        (append_assoc self.sent (graduates (tx ∷ [])) (graduates txs)
          ∙ ap (λ sigs. self.sent ++ sigs) (ground (arith)))

  loop_ok :
      (self : GraduatesProcessor) (txs : List VersionedTransaction)
      → All IsIndexed txs
      → for_each (process_transaction programs) self txs ≡ ok (after self txs)
  loop_ok self [] h =
      ap {A = List ℕ} (λ sigs. ok (record { sent = sigs })) (sym (append-nil self.sent))
  loop_ok self (tx ∷ txs) h =
      rw (process_transaction_ok self tx h.0)
        (loop_ok (after self (tx ∷ [])) txs h.1 ∙ ap ok (after-after self tx txs))

  loop-eq_ok :
      (self next : GraduatesProcessor) (txs : List VersionedTransaction)
      → for_each (process_transaction programs) self txs ≡ ok next
      → next ≡ after self txs
  loop-eq_ok self next [] h = ground (arith, append-nil self.sent)
  loop-eq_ok self next (tx ∷ txs) h =
      let (middle, p, q) = >>=-eq-ok (process_transaction programs self tx) _ h in
      loop-eq_ok middle next txs q
      ∙ ap (λ m. after m txs) (process_transaction-eq_ok self middle tx p)
      ∙ after-after self tx txs

  -- A batch in which every instruction names a program among its message's keys is processed without
  -- a panic: the first signature of every transaction of version 0 that mentions the migration program
  -- and calls Raydium's is sent, in their order, and nothing else.
  pub sends_graduates :
      (self : GraduatesProcessor) (entries : List (List VersionedTransaction))
      → All IsIndexed (flat_map (λ entry. entry) entries)
      → process_entries programs self entries ≡ ok (after self (flat_map (λ entry. entry) entries))
  unfolding process_entries
  sends_graduates self entries h =
      for_each-for_each (process_transaction programs) self entries
      ∙ loop_ok self (flat_map (λ entry. entry) entries) h

  -- A batch that is processed without a panic has sent just those signatures.
  pub process_entries-eq_ok :
      (self next : GraduatesProcessor) (entries : List (List VersionedTransaction))
      → process_entries programs self entries ≡ ok next
      → next ≡ after self (flat_map (λ entry. entry) entries)
  unfolding process_entries
  process_entries-eq_ok self next entries h =
      loop-eq_ok self next (flat_map (λ entry. entry) entries)
        (sym (for_each-for_each (process_transaction programs) self entries) ∙ h)
