-- ===== src/Arb/Entries/Counts.antt =====
-- What a batch of entries counts and sends, against the batch's transactions.
use mathlib.Core.List.{append_assoc, append-nil}
use shreds.Base.{
  ◌+◌, ◌%◌, ◌<◌, ◌≡◌, refl, ap, ◌∙◌, sym, subst, Bool, true, false, not, ◌&&◌, nat_eq, List, [],
  ◌∷◌, ◌++◌, length, length-append, select, filter_map, filter_map-append, select-append, flat_map,
  contains, Outcome, ok, or_panic, or_panic-eq-ok, >>=-eq-ok, ok-inj, ◌>>=◌, arith, Bool-cases, inl,
  inr,
}
use shreds.Base.Words.{u64_mod}
use shreds.Raydium.Swap.{AmmMath}
use shreds.Transaction.{VersionedTransaction, first_signature}
use shreds.Arb.Pools.{PoolsState, reduce_raydium_amm_tx}
use shreds.Arb.Pools.Update.{AllFit, Keeps, configs}
use shreds.Arb.Pools.Reduce.{reduce_raydium_amm_tx-Keeps}
use shreds.Arb.Entries.{
  Programs, ArbEntryProcessor, process_transaction, process_transactions, process_entries,
  count_orca, count_cp, count_amm,
}

-- The three kinds of transaction: one that mentions Orca is of that kind whatever else it mentions,
-- and one that mentions Raydium CP is not of the kind of Raydium AMM.
module _ (programs : Programs) where
  abbrev pub is_orca : VersionedTransaction → Bool
  is_orca tx = contains tx.message.static_account_keys programs.whirlpool

  abbrev pub is_cp : VersionedTransaction → Bool
  is_cp tx = not (is_orca tx) && contains tx.message.static_account_keys programs.raydium_cp

  abbrev pub is_amm : VersionedTransaction → Bool
  is_amm tx =
      not (is_orca tx)
      && (not (contains tx.message.static_account_keys programs.raydium_cp)
          && contains tx.message.static_account_keys programs.raydium_amm)

  -- What a processor has after some transactions.
  abbrev pub Processes : List VersionedTransaction → ArbEntryProcessor → ArbEntryProcessor → Type 0
  Processes txs self next =
      (next.pools_state.orca_count
        ≡ (self.pools_state.orca_count + length (select is_orca txs)) % u64_mod)
      × (next.pools_state.raydium_cp_count
          ≡ (self.pools_state.raydium_cp_count + length (select is_cp txs)) % u64_mod)
      × (next.pools_state.raydium_amm_count
          ≡ (self.pools_state.raydium_amm_count + length (select is_amm txs)) % u64_mod)
      × (next.sent ≡ self.sent ++ filter_map first_signature (select is_amm txs))
      × (configs next.pools_state.raydium_pools ≡ configs self.pools_state.raydium_pools)

  abbrev pub CountsFit : ArbEntryProcessor → Type 0
  CountsFit self =
      (self.pools_state.orca_count < u64_mod)
      × (self.pools_state.raydium_cp_count < u64_mod)
      × (self.pools_state.raydium_amm_count < u64_mod)
      × AllFit self.pools_state

  length-select-append :
      (p : VersionedTransaction → Bool) (xs ys : List VersionedTransaction)
      → length (select p (xs ++ ys)) ≡ length (select p xs) + length (select p ys)
  length-select-append p xs ys =
      ap length (select-append p xs ys) ∙ length-append (select p xs) (select p ys)

  pub Processes-trans :
      (xs ys : List VersionedTransaction) (a b c : ArbEntryProcessor)
      → Processes xs a b
      → Processes ys b c
      → Processes (xs ++ ys) a c
  Processes-trans xs ys a b c (o, p, q, r, s) (o', p', q', r', s') = (
    omega (arith, length-select-append is_orca xs ys),
    omega (arith, length-select-append is_cp xs ys),
    omega (arith, length-select-append is_amm xs ys),
    rw
        (
          r',
          r,
          select-append is_amm xs ys,
          filter_map-append first_signature (select is_amm xs) (select is_amm ys),
        )
        (append_assoc a.sent (filter_map first_signature (select is_amm xs))
          (filter_map first_signature (select is_amm ys))),
    s' ∙ s,
  )

module _ (math : AmmMath) (Body : Type 0) (programs : Programs) where
  amm_kept :
      (pools reduced : PoolsState)
      → Keeps (count_amm pools) reduced
      → (reduced.orca_count ≡ pools.orca_count)
        × (reduced.raydium_cp_count ≡ pools.raydium_cp_count)
        × (reduced.raydium_amm_count ≡ (pools.raydium_amm_count + 1) % u64_mod)
        × (configs reduced.raydium_pools ≡ configs pools.raydium_pools)
  amm_kept pools reduced (p, q) =
      (ap (λ x. x.orca_count) p, ap (λ x. x.raydium_cp_count) p, ap (λ x. x.raydium_amm_count) p, q)

  -- What an amm transaction's branch comes to.
  sent_first :
      (self : ArbEntryProcessor) (tx : VersionedTransaction)
      → contains tx.message.static_account_keys programs.whirlpool ≡ false
      → contains tx.message.static_account_keys programs.raydium_cp ≡ false
      → contains tx.message.static_account_keys programs.raydium_amm ≡ true
      → {next : Outcome ⊥ ArbEntryProcessor} → process_transaction math Body programs self tx ≡ next
      → (or_panic (first_signature tx) >>= λ signature.
          reduce_raydium_amm_tx math Body programs.raydium_amm (count_amm self.pools_state) tx
          >>= λ reduced.
              ok (record { pools_state = reduced; sent = self.sent ++ (signature ∷ []) }))
        ≡ next
  unfolding process_transaction
  sent_first self tx a b c e = rw (sym e) (rw (process_transaction, a, b, c) refl)

  process_transaction_lem :
      (self next : ArbEntryProcessor) (tx : VersionedTransaction)
      → CountsFit programs self
      → process_transaction math Body programs self tx ≡ ok next
      → Processes programs (tx ∷ []) self next × CountsFit programs next
  unfolding process_transaction
  process_transaction_lem self next tx fit e =
      let P =
        λ (x : ArbEntryProcessor). Processes programs (tx ∷ []) self x × CountsFit programs x in
      let keys = tx.message.static_account_keys in
      let pools = self.pools_state in
      elim (Bool-cases (contains keys programs.whirlpool)) [
        | inl orca ↦
            subst P {x = record self { pools_state = count_orca pools }} {y = next}
              (ok-inj {E = ⊥} (rw (sym e) (rw (process_transaction, orca) refl)))
              (rw orca (ground (arith, append-nil self.sent)))
        | inr a ↦ elim (Bool-cases (contains keys programs.raydium_cp)) [
          | inl cp ↦
              subst P {x = record self { pools_state = count_cp pools }} {y = next}
                (ok-inj {E = ⊥} (rw (sym e) (rw (process_transaction, a, cp) refl)))
                (rw (a, cp) (ground (arith, append-nil self.sent)))
          | inr b ↦ elim (Bool-cases (contains keys programs.raydium_amm)) [
            | inl amm ↦
                let (signature, p, q) =
                  >>=-eq-ok (or_panic (first_signature tx)) _ (sent_first self tx a b amm e) in
                let (reduced, r, s) =
                  >>=-eq-ok
                    (reduce_raydium_amm_tx math Body programs.raydium_amm (count_amm pools) tx) _
                    q in
                let (kept, fit') =
                  reduce_raydium_amm_tx-Keeps math Body programs.raydium_amm (count_amm pools)
                    reduced tx fit.3 r in
                subst P {x = record { pools_state = reduced; sent = self.sent ++ (signature ∷ []) }}
                  {y = next} (ok-inj {E = ⊥} s)
                  (rw (a, b, amm, or_panic-eq-ok {E = ⊥} p)
                    (ground (arith, amm_kept pools reduced kept)))
            | inr c ↦
                subst P {x = self} {y = next}
                  (ok-inj {E = ⊥} (rw (sym e) (rw (process_transaction, a, b, c) refl)))
                  (rw (a, b, c) (ground (arith, append-nil self.sent)))
          ]
        ]
      ]

  process_transactions_lem :
      (self next : ArbEntryProcessor) (txs : List VersionedTransaction)
      → CountsFit programs self
      → process_transactions math Body programs self txs ≡ ok next
      → Processes programs txs self next × CountsFit programs next
  unfolding process_transactions
  process_transactions_lem self next [] fit e =
      subst (λ x. Processes programs [] self x × CountsFit programs x) (ok-inj {E = ⊥} e)
        (ground (arith, append-nil self.sent))
  process_transactions_lem self next (tx ∷ txs) fit e =
      let (middle, p, q) = >>=-eq-ok (process_transaction math Body programs self tx) _ e in
      let (done, fit') = process_transaction_lem self middle tx fit p in
      let (rest, fit'') = process_transactions_lem middle next txs fit' q in
      (Processes-trans programs (tx ∷ []) txs self middle next done rest, fit'')

  -- A batch of entries that is processed without a panic, counters and amounts being words: each
  -- counter advances by its kind of transaction, modulo 2^64, the first signature of every amm
  -- transaction is sent, in their order, and the pools keep their keys and all but their amounts. The
  -- counters and amounts are words afterwards.
  pub process_entries_lem :
      (self next : ArbEntryProcessor) (entries : List (List VersionedTransaction))
      → CountsFit programs self
      → process_entries math Body programs self entries ≡ ok next
      → Processes programs (flat_map (λ entry. entry) entries) self next × CountsFit programs next
  unfolding process_entries
  process_entries_lem self next [] fit e =
      subst (λ x. Processes programs [] self x × CountsFit programs x) (ok-inj {E = ⊥} e)
        (ground (arith, append-nil self.sent))
  process_entries_lem self next (entry ∷ entries) fit e =
      let (middle, p, q) = >>=-eq-ok (process_transactions math Body programs self entry) _ e in
      let (done, fit') = process_transactions_lem self middle entry fit p in
      let (rest, fit'') = process_entries_lem middle next entries fit' q in
      (
        Processes-trans programs entry (flat_map (λ entry. entry) entries) self middle next done
            rest,
        fit'',
      )
