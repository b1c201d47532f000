-- ===== src/Shred/Entries/Decode.antt =====
-- What `deserialize_entries` makes of a payload, complete, cut short or malformed.
use shreds.Base.{
  ℕ, zero, suc, ◌+◌, ◌≤◌, ◌<◌, ◌≡◌, ◌⊎◌, ap, sym, ◌∙◌, subst, Option-cases, inl, inr, Bool, true,
  false, Option, none, some, List, [], ◌∷◌, ◌++◌, take, drop, length, flat_map, length-append,
  take-append, drop-append, ok, err, panicked, arith,
}
use mathlib.Core.List.{append_assoc, append-nil}
use native.Mathlib.Nat.{zero-add, add-zero}
use shreds.Base.Bytes.{le_bytes, to_le_bytes, length-to_le_bytes, le_bytes-to_le_bytes}
use shreds.Shred.Entries.{entry_count, max_entries, push, read_entries, deserialize_entries}

suc-add : (m n : ℕ) → suc m + n ≡ suc (m + n)
suc-add m n = omega arith

module _ {Entry : Type 0} (read_entry : List ℕ → Option Entry × List ℕ) where
  length-push :
      (entries : List Entry) (entry : Option Entry)
      → length entries ≤ length (push read_entry entries entry)
        × length (push read_entry entries entry) ≤ length entries + 1
  length-push entries none = omega arith
  length-push entries (some entry) = omega (arith, length-append entries (entry ∷ []))

  read_entries-length :
      (n : ℕ) (cursor : List ℕ) (entries : List Entry)
      → length entries ≤ length (read_entries read_entry n cursor entries)
        × length (read_entries read_entry n cursor entries) ≤ length entries + n
  unfolding read_entries
  read_entries-length zero cursor entries = omega arith
  read_entries-length (suc n) cursor entries =
      let (entry, rest) = read_entry cursor in
      omega (
        arith,
        length-push entries entry,
        read_entries-length n rest (push read_entry entries entry),
      )

  -- The four branches: a payload without a count gives no entries, a count above 10,000 is an error
  -- that names it, a message that is formatted panics below 16 bytes, and else at most as many entries
  -- come back as were counted.
  pub deserialize_entries_cases :
      (tracing : Bool) (payload : List ℕ)
      → let count = le_bytes (take 8 payload) in
        let result = deserialize_entries read_entry tracing payload in
        ((length payload < 8) × (result ≡ ok []))
        ⊎ ((8 ≤ length payload) × (max_entries < count) × (result ≡ err (entry_count count)))
        ⊎ ((tracing ≡ true)
            × (8 ≤ length payload)
            × (length payload < 16)
            × (count ≤ max_entries)
            × (result ≡ panicked))
        ⊎ ((8 ≤ length payload)
            × (count ≤ max_entries)
            × ((entries : List Entry) × (result ≡ ok entries) × (length entries ≤ count)))
  unfolding deserialize_entries
  deserialize_entries_cases tracing payload =
      ground (arith, read_entries-length (le_bytes (take 8 payload)) (drop 8 payload) [])

  -- A count in range, and any body: the body is read for that many rounds.
  deserialize_entries-count :
      (count : ℕ) (body : List ℕ)
      → count ≤ max_entries
      → deserialize_entries read_entry false (to_le_bytes 8 count ++ body)
        ≡ ok (read_entries read_entry count body [])
  unfolding deserialize_entries
  deserialize_entries-count count body h = rw (taken, dropped, value) (ground (arith, long))
    where
      taken : take 8 (to_le_bytes 8 count ++ body) ≡ to_le_bytes 8 count
      taken =
          subst (λ k. take k (to_le_bytes 8 count ++ body) ≡ to_le_bytes 8 count)
            (length-to_le_bytes 8 count) (take-append (to_le_bytes 8 count) body)

      dropped : drop 8 (to_le_bytes 8 count ++ body) ≡ body
      dropped =
          subst (λ k. drop k (to_le_bytes 8 count ++ body) ≡ body) (length-to_le_bytes 8 count)
            (drop-append (to_le_bytes 8 count) body)

      value : le_bytes (to_le_bytes 8 count) ≡ count
      value = le_bytes-to_le_bytes 8 count (omega arith)

      long : 8 ≤ length (to_le_bytes 8 count ++ body)
      long = omega (arith, length-append (to_le_bytes 8 count) body, length-to_le_bytes 8 count)

  -- The loop only appends, at most one entry in each round.
  read_entries-grows :
      (n : ℕ) (cursor : List ℕ) (entries : List Entry)
      → (more : List Entry) × (read_entries read_entry n cursor entries ≡ entries ++ more)
        × (length more ≤ n)
  unfolding read_entries
  read_entries-grows zero cursor entries = ([], sym (append-nil entries), omega arith)
  read_entries-grows (suc n) cursor entries =
      let (entry, rest) = read_entry cursor in
      let (more, p, few) = read_entries-grows n rest (push read_entry entries entry) in
      elim (Option-cases entry) [
        | inl failed ↦
            (more, p ∙ ap (λ e. push read_entry entries e ++ more) failed, omega (arith, few))
        | inr (value, read) ↦ (
          value ∷ more,
          p
              ∙ ap (λ e. push read_entry entries e ++ more) read
              ∙ append_assoc entries (value ∷ []) more,
          omega (arith, few),
        )
      ]

  read_entries-failed :
      (n : ℕ) (rest : List ℕ) (entries : List Entry)
      → 0 < n
      → (read_entry rest).0 ≡ none
      → (more : List Entry) × (read_entries read_entry n rest entries ≡ entries ++ more)
        × (length more < n)
  unfolding read_entries
  read_entries-failed zero rest entries counted fails = absurd (omega arith)
  read_entries-failed (suc n) rest entries counted fails =
      let (more, p, few) = read_entries-grows n (read_entry rest).1 entries in
      (more, rw (fails) p, omega (arith, few))

  -- Encoded entries are read back one by one, whatever follows them.
  module _ (encode : Entry → List ℕ)
      (reads : (entry : Entry) (rest : List ℕ)
        → read_entry (encode entry ++ rest) ≡ (some entry, rest)) where
    read_entries-encode :
        (entries : List Entry) (n : ℕ) (rest : List ℕ) (before : List Entry)
        → read_entries read_entry (length entries + n) (flat_map encode entries ++ rest) before
          ≡ read_entries read_entry n rest (before ++ entries)
    unfolding read_entries
    read_entries-encode [] n rest before = rw (append-nil before, zero-add n)
    read_entries-encode (entry ∷ entries) n rest before =
        rw (suc-add (length entries) n, append_assoc (encode entry) (flat_map encode entries) rest)
          (rw (reads entry (flat_map encode entries ++ rest), read_entries)
            (read_entries-encode entries n rest (before ++ (entry ∷ []))
              ∙ ap (read_entries read_entry n rest) (append_assoc before (entry ∷ []) entries)))

    -- A count of 8 bytes and the entries behind it: all of them are decoded, then the loop goes on
    -- with what is left, for as many rounds as the count has left.
    deserialize_entries-prefix :
        (entries : List Entry) (n : ℕ) (rest : List ℕ)
        → length entries + n ≤ max_entries
        → deserialize_entries read_entry false
            (to_le_bytes 8 (length entries + n) ++ (flat_map encode entries ++ rest))
          ≡ ok (read_entries read_entry n rest entries)
    deserialize_entries-prefix entries n rest h =
        deserialize_entries-count (length entries + n) (flat_map encode entries ++ rest) h
        ∙ ap ok (read_entries-encode entries n rest [])

    -- With a reader that gives back each encoded entry and what follows it, and trace messages off,
    -- a batch of at most 10,000 entries is decoded whole, and the bytes behind it are not looked
    -- at.
    pub deserialize_entries-encode :
        (entries : List Entry) (rest : List ℕ)
        → length entries ≤ max_entries
        → deserialize_entries read_entry false
            (to_le_bytes 8 (length entries) ++ (flat_map encode entries ++ rest))
          ≡ ok entries
    unfolding read_entries
    deserialize_entries-encode entries rest h =
        subst
          (λ n.
            deserialize_entries read_entry false
              (to_le_bytes 8 n ++ (flat_map encode entries ++ rest))
            ≡ ok entries)
          (add-zero (length entries)) (deserialize_entries-prefix entries 0 rest (omega arith))

    -- With a reader that gives back each encoded entry and what follows it, and trace messages off, a count
    -- of at most 10,000 whose entries break off with one that fails to decode is no error: the result
    -- begins with the entries before it, and has fewer behind them than were still to come.
    pub deserialize_entries-cut :
        (entries : List Entry) (n : ℕ) (rest : List ℕ)
        → length entries + n ≤ max_entries
        → 0 < n
        → (read_entry rest).0 ≡ none
        → (more : List Entry) × (deserialize_entries read_entry false
              (to_le_bytes 8 (length entries + n) ++ (flat_map encode entries ++ rest))
            ≡ ok (entries ++ more))
          × (length more < n)
    deserialize_entries-cut entries n rest h counted fails =
        let (more, p, few) = read_entries-failed n rest entries counted fails in
        (more, deserialize_entries-prefix entries n rest h ∙ ap ok p, few)
