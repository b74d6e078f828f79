-- ===== src/Transactions/Consolidation.antt =====
-- saturn-bitcoin-transactions/src/consolidation.rs: old UTXOs of the pool that join a transaction as
-- long as it stays small enough.
pub mod Joining
pub mod Picked
pub mod Chosen
use saturn_crates.Prelude.{
  ℕ, zero, suc, ◌+◌, ◌*◌, ◌%◌, List, [], ◌∷◌, ◌++◌, Bool, true, false, Option, none, some, Result,
  ok, err, panicked, leb, ltb, if◌then◌else◌, length, any, map_err,
}
use saturn_crates.Prelude.Exec.{M, ◌>>=◌, ◌>>◌, return, fail, get, modify, map_err_m}
use saturn_crates.SafeMath.{u32_mod, u64_mod}
use saturn_crates.Collections.PushPop.{PushPop, PushPopError, pop_vec}
use saturn_crates.Transactions.Chain.{
  Node, Transaction, TxIn, TxOut, InputToSign, OutPoint, outpoint_eq, FeeRate,
}
use saturn_crates.Transactions.Errors.{
  BitcoinTxError, input_to_sign_list_full, transaction_too_large,
}
use saturn_crates.Transactions.Builder.State.{UtxoInfo, unsigned_input}
use saturn_crates.Transactions.Reserve.{
  NewPotentialInputsAndOutputs, Draft, sign, push_input, with_outputs,
  estimate_tx_size_with_additional_inputs_outputs,
}

-- `needs_consolidation.get().map(|rate| rate >= mempool_fee_rate).unwrap_or(false)`
abbrev pub should_consolidate : FeeRate → UtxoInfo → Bool
should_consolidate mempool_fee_rate utxo = elim utxo.needs_consolidation [
  | none ↦ false
  | some rate ↦ leb mempool_fee_rate rate
]

unfoldable pub calculate_extra_tx_size_for_consolidation : ℕ → ℕ → ℕ
calculate_extra_tx_size_for_consolidation program_input_size inputs =
    (program_input_size * inputs) % u64_mod

abbrev pub in_transaction : OutPoint → List TxIn → Bool
in_transaction outpoint = any (λ i. outpoint_eq i.previous_output outpoint)

module _ {C : Type 0} (p : PushPop C InputToSign) (node : Node)
    (n : NewPotentialInputsAndOutputs) where
  abbrev pub pop_input : Draft C → Draft C
  pop_input d = record {
    transaction = record d.transaction { input = (pop_vec d.transaction.input).1 };
    inputs_to_sign = (p.pop d.inputs_to_sign).1;
  }

  unfoldable pub safe_add_input_to_transaction : ℕ → TxIn → M (Draft C) BitcoinTxError (Unit {0})
  unfolding sign estimate_tx_size_with_additional_inputs_outputs
  safe_add_input_to_transaction signer input = do
    d ← get
    map_err_m (λ _. input_to_sign_list_full) (sign p (length d.transaction.input) signer)
    modify (push_input p input)
    total_size ←
        map_err_m (λ _. input_to_sign_list_full)
          (estimate_tx_size_with_additional_inputs_outputs p node n)
    if ltb node.max_btc_tx_size total_size
        then (do modify pop_input; fail transaction_too_large)
        else return tt

  unfoldable pub safe_add_output_to_transaction : TxOut → M (Draft C) BitcoinTxError (Unit {0})
  unfolding estimate_tx_size_with_additional_inputs_outputs
  safe_add_output_to_transaction output = do
    modify (with_outputs p (λ os. os ++ (output ∷ [])))
    total_size ←
        map_err_m (λ _. input_to_sign_list_full)
          (estimate_tx_size_with_additional_inputs_outputs p node n)
    if ltb node.max_btc_tx_size total_size
        then (do modify (with_outputs p (λ os. (pop_vec os).1)); fail transaction_too_large)
        else return tt

  -- The loop: what it adds to `total_input_amount` and to the number of inputs, and the draft. The first
  -- input that cannot be added ends it.
  unfoldable pub consolidate : ℕ → FeeRate → List UtxoInfo → ℕ → ℕ → Draft C → ℕ × ℕ × Draft C
  unfolding safe_add_input_to_transaction
  consolidate signer rate [] total added d = (total, added, d)
  consolidate signer rate (utxo ∷ utxos) total added d =
      let (r, d') = safe_add_input_to_transaction signer (unsigned_input utxo.meta) d in
      let skipped = consolidate signer rate utxos total added d in
      let taken =
        consolidate signer rate utxos ((total + utxo.value) % u64_mod) ((added + 1) % u32_mod) d' in
      elim (should_consolidate rate utxo) [
        | false ↦ skipped
        | true ↦ elim (in_transaction utxo.meta d.transaction.input) [
          | true ↦ skipped
          | false ↦ elim r [
            | ok _ ↦ taken
            | err _ ↦ (total, added, d')
            | panicked ↦ (total, added, d')
          ]
        ]
      ]

  unfoldable pub add_consolidation_utxos :
      ℕ → List UtxoInfo → FeeRate → ℕ → Draft C → (ℕ × ℕ) × Draft C
  unfolding consolidate calculate_extra_tx_size_for_consolidation
  add_consolidation_utxos signer utxos rate program_input_size d =
      let (total, added, d') = consolidate signer rate utxos 0 0 d in
      ((total, calculate_extra_tx_size_for_consolidation program_input_size added), d')
