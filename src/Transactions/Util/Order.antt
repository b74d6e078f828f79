-- ===== src/Transactions/Util/Order.antt =====
-- The used accounts are the writable ones, in the order of the outputs that pay to them.
use mathlib.Core.List.{Perm}
use mathlib.Core.Path.{subst}
use saturn_crates.Prelude.{
  ℕ, ◌≡◌, ◌↔◌, ◌≤◌, refl, sym, ap, ap₂, ◌∙◌, List, [], ◌∷◌, Bool, true, false, some, ok, ◌==◌,
  length, get_elem?, find_first, any, All, arith, Bool-cases, Option-cases, ok-injective, inl, inr,
}
use saturn_crates.Prelude.Exec.{try-ok, assert-ok, asserted}
use saturn_crates.Prelude.Members.{member, NoRepeats, all_members-Perm}
use saturn_crates.Collections.FixedList
use saturn_crates.Collections.FixedList.{FixedList, FixedListError}
use saturn_crates.Collections.FixedList.Laws.{new-IsValid, length-as_slice, copy_from_slice-IsValid}
use saturn_crates.Transactions.Chain.{Script, script_eq, Transaction, TxOut}
use saturn_crates.Transactions.Builder.State.{AccountInfo}
use saturn_crates.Transactions.Util.{
  push_writable, pays_to, push_matches, reorder_accounts_in_transaction,
  get_used_shards_in_transaction,
}
use saturn_crates.Transactions.Util.Pushed.{
  writable_from, matches, push_writable-Appends, push_matches-Appends, push_writable_fits,
  push_matches_fits,
}

script_eq_sound : (s t : Script) → script_eq s t ≡ true → s ≡ t
script_eq_sound [] [] h = refl
script_eq_sound [] (y ∷ t) h = absurd (ground arith)
script_eq_sound (x ∷ s) [] h = absurd (ground arith)
script_eq_sound (x ∷ s) (y ∷ t) h =
    ap₂ (λ a b. a ∷ b) (ground (arith, h)) (script_eq_sound s t (ground (arith, h)))

script_eq_refl : (s : Script) → script_eq s s ≡ true
script_eq_refl [] = refl
script_eq_refl (x ∷ s) = ground (arith, script_eq_refl s)

-- No two outputs pay to the same script.
abbrev pub DifferentScripts : List TxOut → Type 0
DifferentScripts [] = Unit
DifferentScripts (o ∷ outputs) =
    All (λ other. script_eq o.script_pubkey other.script_pubkey ≡ false) outputs
    × DifferentScripts outputs

find_first-member :
    (p : ℕ → Bool) (xs : List ℕ) (i : ℕ)
    → find_first p xs ≡ some i
    → (member xs i ≡ true) × (p i ≡ true)
find_first-member p [] i h = absurd (cc)
find_first-member p (x ∷ xs) i h = elim (Bool-cases (p x)) [
  | inl here ↦
      let same : x ≡ i = cc (rw (here, find_first) at h) in
      subst (λ k. (member (x ∷ xs) k ≡ true) × (p k ≡ true)) same (ground arith, here)
  | inr later ↦
      let (m, q) = find_first-member p xs i (rw (later, find_first) at h) in (ground (arith, m), q)
]

module _ (script : ℕ → Script) where
  matches-member :
      (accounts : List AccountInfo) (indexes : List ℕ) (outputs : List TxOut)
      → All (λ i. member indexes i ≡ true) (matches script accounts indexes outputs)
  matches-member accounts indexes [] = tt
  matches-member accounts indexes (o ∷ outputs) =
      elim (Option-cases (find_first (pays_to script accounts o) indexes)) [
        | inl unpaid ↦ rw (unpaid, matches) (matches-member accounts indexes outputs)
        | inr (i, paid) ↦
            rw (paid, matches)
              (
                (find_first-member (pays_to script accounts o) indexes i paid).0,
                matches-member accounts indexes outputs,
              )
      ]

  -- Two outputs that pay to one account have the same script.
  same_script :
      (accounts : List AccountInfo) (o other : TxOut) (i : ℕ)
      → pays_to script accounts o i ≡ true
      → pays_to script accounts other i ≡ true
      → script_eq o.script_pubkey other.script_pubkey ≡ true
  same_script accounts o other i h g = elim (Option-cases (get_elem? accounts i)) [
    | inl missing ↦ absurd (cc (rw (missing, pays_to) at h))
    | inr (a, there) ↦
        let first = script_eq_sound o.script_pubkey (script a.key) (rw (there, pays_to) at h) in
        let second =
          script_eq_sound other.script_pubkey (script a.key) (rw (there, pays_to) at g) in
        rw (first ∙ sym second) (script_eq_refl other.script_pubkey)
  ]

  unmatched :
      (accounts : List AccountInfo) (indexes : List ℕ) (o : TxOut) (i : ℕ) (outputs : List TxOut)
      → pays_to script accounts o i ≡ true
      → All (λ other. script_eq o.script_pubkey other.script_pubkey ≡ false) outputs
      → any (λ j. i == j) (matches script accounts indexes outputs) ≡ false
  unmatched accounts indexes o i [] h d = refl
  unmatched accounts indexes o i (other ∷ outputs) h d =
      elim (Option-cases (find_first (pays_to script accounts other) indexes)) [
        | inl unpaid ↦ rw (unpaid, matches) (unmatched accounts indexes o i outputs h d.1)
        | inr (j, paid) ↦
            let pays = (find_first-member (pays_to script accounts other) indexes j paid).1 in
            let differ : (i == j) ≡ false = elim (Bool-cases (i == j)) [
              | inr e ↦ e
              | inl same ↦
                  let e : i ≡ j = ground (arith, same) in
                  absurd (
                    cc (
                      same_script accounts o other i h
                          (subst (λ k. pays_to script accounts other k ≡ true) (sym e) pays),
                      d.0,
                    ))
            ] in
            rw (paid, matches) (rw (differ, any) (unmatched accounts indexes o i outputs h d.1))
      ]

  matches-NoRepeats :
      (accounts : List AccountInfo) (indexes : List ℕ) (outputs : List TxOut)
      → DifferentScripts outputs
      → NoRepeats (matches script accounts indexes outputs)
  matches-NoRepeats accounts indexes [] d = tt
  matches-NoRepeats accounts indexes (o ∷ outputs) d =
      elim (Option-cases (find_first (pays_to script accounts o) indexes)) [
        | inl unpaid ↦ rw (unpaid, matches) (matches-NoRepeats accounts indexes outputs d.1)
        | inr (i, paid) ↦
            rw (paid, matches)
              (
                unmatched accounts indexes o i outputs
                    (find_first-member (pays_to script accounts o) indexes i paid).1 d.0,
                matches-NoRepeats accounts indexes outputs d.1,
              )
      ]

  -- What the call gives is in the order of the outputs, and as long as the list of writable accounts.
  get_used_shards_in_transaction-order :
      (size : ℕ) (tx : Transaction) (accounts : List AccountInfo) (used : FixedList ℕ)
      → get_used_shards_in_transaction script size tx accounts ≡ ok used
      → (FixedList.as_slice used ≡ matches script accounts (writable_from 0 accounts) tx.output)
        × (length (matches script accounts (writable_from 0 accounts) tx.output)
            ≡ length (writable_from 0 accounts))
  unfolding get_used_shards_in_transaction reorder_accounts_in_transaction
  get_used_shards_in_transaction-order size tx accounts used h =
      let empty = FixedList.new size 0 in
      let indexes = (push_writable size 0 accounts empty).1 in
      let writable = writable_from 0 accounts in
      let (_, (pushed, h1)) = try-ok (push_writable size 0 accounts empty).0 _ used h in
      let (v, all) = push_writable-Appends size 0 accounts empty (new-IsValid size 0) pushed in
      let moved = push_matches script size accounts (FixedList.as_slice indexes) tx.output empty in
      let (_, (matched, h2)) = try-ok moved.0 _ used h1 in
      let (w, found) =
        push_matches-Appends script size accounts (FixedList.as_slice indexes) tx.output empty
          (new-IsValid size 0) matched in
      let (same, h3) = assert-ok (moved.1.len == indexes.len) _ used h2 in
      let many = length-as_slice size moved.1 w in
      let (copied, _, slice) =
        copy_from_slice-IsValid size indexes (FixedList.as_slice moved.1) v
          (omega (arith, many, w.bounded)) in
      let given : (FixedList.copy_from_slice indexes (FixedList.as_slice moved.1)).1 ≡ used =
        ok-injective (rw copied at h3) in
      let order : FixedList.as_slice used ≡ matches script accounts writable tx.output =
        ap FixedList.as_slice (sym given)
        ∙ slice
        ∙ found
        ∙ ap (λ k. matches script accounts k tx.output) all in
      let lengths : length (matches script accounts writable tx.output) ≡ length writable =
        ap length (sym (found ∙ ap (λ k. matches script accounts k tx.output) all))
        ∙ many
        ∙ ground (arith, same)
        ∙ sym (length-as_slice size indexes v)
        ∙ ap length all in
      (order, lengths)

  -- As long a list of matches as of writable accounts makes the call succeed.
  get_used_shards_in_transaction_succeeds :
      (size : ℕ) (tx : Transaction) (accounts : List AccountInfo)
      → length (writable_from 0 accounts) ≤ size
      → length (matches script accounts (writable_from 0 accounts) tx.output)
        ≡ length (writable_from 0 accounts)
      → (used : FixedList ℕ) × (get_used_shards_in_transaction script size tx accounts ≡ ok used)
  unfolding get_used_shards_in_transaction reorder_accounts_in_transaction FixedList.new
  get_used_shards_in_transaction_succeeds size tx accounts fits lengths =
      let empty : FixedList ℕ = FixedList.new size 0 in
      let indexes = (push_writable size 0 accounts empty).1 in
      let pushed =
        push_writable_fits size 0 accounts empty (new-IsValid size 0) (omega (arith, fits)) in
      let (v, all) = push_writable-Appends size 0 accounts empty (new-IsValid size 0) pushed in
      let moved = push_matches script size accounts (FixedList.as_slice indexes) tx.output empty in
      let same : length (matches script accounts (FixedList.as_slice indexes) tx.output)
          ≡ length (writable_from 0 accounts) =
        ap (λ k. length (matches script accounts k tx.output)) all ∙ lengths in
      let matched =
        push_matches_fits script size accounts (FixedList.as_slice indexes) tx.output empty
          (new-IsValid size 0) (omega (arith, same, fits)) in
      let (w, found) =
        push_matches-Appends script size accounts (FixedList.as_slice indexes) tx.output empty
          (new-IsValid size 0) matched in
      let many = length-as_slice size moved.1 w in
      let full : moved.1.len ≡ indexes.len =
        sym many ∙ ap length found ∙ same ∙ sym (ap length all) ∙ length-as_slice size indexes v in
      let (copied, _, slice) =
        copy_from_slice-IsValid size indexes (FixedList.as_slice moved.1) v
          (omega (arith, many, w.bounded)) in
      (
        (FixedList.copy_from_slice indexes (FixedList.as_slice moved.1)).1,
        rw pushed (
            rw matched
              (asserted (moved.1.len == indexes.len) _ (ground (arith, full)) ∙ rw copied refl)),
      )

  -- (No two outputs pay to the same script, and the writable accounts fit the list.) The call gives a list
  -- that has every writable account once and is in the order of the outputs that pay to these, exactly if there
  -- are as many outputs that pay to one as there are writable accounts.
  pub get_used_shards_in_transaction_iff :
      (size : ℕ) (tx : Transaction) (accounts : List AccountInfo)
      → DifferentScripts tx.output
      → length (writable_from 0 accounts) ≤ size
      → ((used : FixedList ℕ) × (get_used_shards_in_transaction script size tx accounts ≡ ok used)
          × Perm (FixedList.as_slice used) (writable_from 0 accounts)
          × (FixedList.as_slice used
              ≡ matches script accounts (writable_from 0 accounts) tx.output))
        ↔ (length (matches script accounts (writable_from 0 accounts) tx.output)
            ≡ length (writable_from 0 accounts))
  get_used_shards_in_transaction_iff size tx accounts d fits = (
    (λ (used, h, _, _). (get_used_shards_in_transaction-order size tx accounts used h).1),
    (λ lengths.
        let (used, h) = get_used_shards_in_transaction_succeeds size tx accounts fits lengths in
        let order = (get_used_shards_in_transaction-order size tx accounts used h).0 in
        let all =
          all_members-Perm (matches script accounts (writable_from 0 accounts) tx.output)
            (writable_from 0 accounts)
            (matches-NoRepeats accounts (writable_from 0 accounts) tx.output d)
            (matches-member accounts (writable_from 0 accounts) tx.output) lengths in
        (used, h, subst (λ k. Perm k (writable_from 0 accounts)) (sym order) all, order)),
  )
