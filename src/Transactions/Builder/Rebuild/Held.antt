-- ===== src/Transactions/Builder/Rebuild/Held.antt =====
-- What the builder holds that `new_with_transaction` makes.
use saturn_crates.Prelude.{
  ℕ, ◌+◌, ◌%◌, ◌≡◌, refl, List, [], ◌∷◌, Option, none, some, ok, Result-cases, ok-injective,
  Option-cases, ◌==◌, length, arith, inl, inr, Bool-cases,
}
use saturn_crates.Prelude.Sort.{sum_by}
use saturn_crates.SafeMath.{u64_mod}
use saturn_crates.Collections.FixedList
use saturn_crates.Collections.FixedSet
use saturn_crates.Transactions.Chain.{TxIn, Transaction, TxStatus, zero_rune, RuneId}
use saturn_crates.Transactions.Runes.{RuneSet, add_rune_inputs}
use saturn_crates.Transactions.Runes.Ledger.{
  held, deposit, add_rune_inputs-IsValid, held-add_rune_inputs,
}
use saturn_crates.Transactions.Builder.State.{
  UtxoInfo, Caps, Runestone, TransactionBuilder, no_input,
}
use mathlib.Core.Path.{subst}
use saturn_crates.Transactions.Builder.Rebuild.{
  find_utxo, collect_runes, runestone_of, new_with_transaction,
}
use saturn_crates.Transactions.Builder.Tracking.{IsValid}

-- what the UTXOs that the inputs spend hold of a rune
abbrev pub deposited : List UtxoInfo → RuneId → List TxIn → ℕ
deposited utxos j = sum_by (λ i. elim (find_utxo utxos i.previous_output) [
  | none ↦ 0
  | some u ↦ deposit (FixedSet.as_slice u.runes) j
])

collect_runes-held :
    (max_runes : ℕ) (utxos : List UtxoInfo) (inputs : List TxIn) (s : RuneSet) (j : RuneId)
    → FixedSet.Laws.IsValid max_runes s
    → (collect_runes max_runes utxos inputs s).0 ≡ ok tt
    → FixedSet.Laws.IsValid max_runes (collect_runes max_runes utxos inputs s).1
      × (held (collect_runes max_runes utxos inputs s).1 j ≡ held s j + deposited utxos j inputs)
unfolding collect_runes
collect_runes-held max_runes utxos [] s j v h = (v, omega arith)
collect_runes-held max_runes utxos (i ∷ inputs) s j v h =
    elim (Option-cases (find_utxo utxos i.previous_output)) [
      | inl missing ↦ absurd (cc (rw (missing, collect_runes) at h))
      | inr (u, found) ↦
          elim (Result-cases (add_rune_inputs max_runes (FixedSet.as_slice u.runes) s).0) [
            | inl (t, done) ↦
                let (valid, more) =
                  collect_runes-held max_runes utxos inputs
                    (add_rune_inputs max_runes (FixedSet.as_slice u.runes) s).1 j
                    (add_rune_inputs-IsValid max_runes (FixedSet.as_slice u.runes) s v)
                    (rw (found, done, collect_runes) at h) in
                let one = held-add_rune_inputs max_runes (FixedSet.as_slice u.runes) s j v done in
                rw (found, done, collect_runes) (valid, omega (arith, more, one))
            | inr (inl (x, failed)) ↦ absurd (cc (rw (found, failed, collect_runes) at h))
            | inr (inr panic) ↦ absurd (cc (rw (found, panic, collect_runes) at h))
          ]
    ]

held-new : (max_runes : ℕ) (j : RuneId) → held (FixedSet.new max_runes zero_rune) j ≡ 0
unfolding FixedSet.new
held-new max_runes j = refl

-- What a builder holds: the transaction, none of whose inputs has a signer yet, as many satoshis as the
-- UTXOs are worth, and of a rune what the UTXOs hold that the inputs spend.
pub record Rebuilt (c : Caps) (tx : Transaction) (utxos : List UtxoInfo) (b : TransactionBuilder)
    : Type 0 where
  pub same : b.transaction ≡ tx
  pub unsigned : b.inputs_to_sign.len ≡ 0
  pub paired : length tx.input ≡ length utxos
  pub worth : b.total_btc_input ≡ sum_by (λ u. u.value) utxos % u64_mod
  pub valid : IsValid c b
  pub rich : (j : RuneId) → held b.total_rune_inputs j ≡ deposited utxos j tx.input

-- A builder made for a transaction keeps it as it is, with no input to sign, holds as many satoshis as
-- the user's UTXOs are worth (modulo 2^64), one UTXO per input, and of every rune exactly what the UTXOs
-- that the inputs spend hold; its lists are well formed.
pub new_with_transaction-Rebuilt :
    (c : Caps) (get_utxo_status : ℕ → TxStatus) (deciphered : Option (Option Runestone))
    (tx : Transaction) (utxos : List UtxoInfo) (b : TransactionBuilder)
    → new_with_transaction c get_utxo_status deciphered tx utxos ≡ ok b
    → Rebuilt c tx utxos b
unfolding new_with_transaction
new_with_transaction-Rebuilt c get_utxo_status deciphered tx utxos b h =
    elim (Bool-cases (length tx.input == length utxos)) [
      | inl same ↦
          elim (Result-cases
            (collect_runes c.max_runes utxos tx.input (FixedSet.new c.max_runes zero_rune)).0) [
              | inl (t, done) ↦ elim (Result-cases (runestone_of deciphered)) [
                | inl (r, read) ↦
                    let (runes, rich) = collected tx.input t done in
                    subst (λ b. Rebuilt c tx utxos b)
                      (ok-injective (rw (same, done, read, new_with_transaction) at h))
                      (record {
                        same = refl;
                        unsigned = refl;
                        paired = ground arith;
                        worth = refl;
                        valid = record {
                          signs = FixedList.Laws.new-IsValid c.max_inputs_to_sign no_input;
                          accounts = FixedList.Laws.new-IsValid c.max_modified_accounts none;
                          runes = runes;
                          range = tt;
                        };
                        rich = rich;
                      })
                | inr (inl (e, failed)) ↦
                    absurd (cc (rw (same, done, failed, new_with_transaction) at h))
                | inr (inr panic) ↦ absurd (cc (rw (same, done, panic, new_with_transaction) at h))
              ]
              | inr (inl (e, failed)) ↦ absurd (cc (rw (same, failed, new_with_transaction) at h))
              | inr (inr panic) ↦ absurd (cc (rw (same, panic, new_with_transaction) at h))
            ]
      | inr differ ↦ absurd (cc (rw (differ, new_with_transaction) at h))
    ]
  where
    collected :
        (inputs : List TxIn) (t : Unit {0})
        → (collect_runes c.max_runes utxos inputs (FixedSet.new c.max_runes zero_rune)).0 ≡ ok t
        → FixedSet.Laws.IsValid c.max_runes
            (collect_runes c.max_runes utxos inputs (FixedSet.new c.max_runes zero_rune)).1
          × ((j : RuneId)
              → held
                  (collect_runes c.max_runes utxos inputs (FixedSet.new c.max_runes zero_rune)).1
                  j
                ≡ deposited utxos j inputs)
    collected inputs t done = (
      (collect_runes-held c.max_runes utxos inputs (FixedSet.new c.max_runes zero_rune) zero_rune.id
          empty done).0,
      λ j. omega (
        arith,
        (collect_runes-held c.max_runes utxos inputs (FixedSet.new c.max_runes zero_rune) j empty
            done).1,
        held-new c.max_runes j,
      ),
    )
      where
        empty : FixedSet.Laws.IsValid c.max_runes (FixedSet.new c.max_runes zero_rune)
        empty = FixedSet.Laws.new-IsValid c.max_runes zero_rune
