-- ===== src/Transactions/Builder/Rebuild.antt =====
-- `new_with_transaction` of saturn-bitcoin-transactions/src/lib.rs: a builder for a transaction whose
-- inputs are the user's UTXOs.
--
-- `Runestone::decipher` belongs to the crate ordinals; `deciphered` is what it makes of the transaction:
-- nothing, an artifact that is no runestone, or a runestone.
pub mod Held
pub mod Examples
use saturn_crates.Prelude.{
  ℕ, ◌+◌, ◌%◌, ◌≡◌, refl, sym, ap, ◌∙◌, List, [], ◌∷◌, Bool, true, false, Option, none, some,
  Result, ok, err, panicked, Result-cases, Option-cases, ◌==◌, if◌then◌else◌, length, find_first,
  try_, arith, inl, inr, Bool-cases,
}
use saturn_crates.Prelude.Exec.{M, ◌>>=◌, ◌>>◌, return, fail, continue}
use saturn_crates.Prelude.Sort.{sum_by}
use saturn_crates.SafeMath.{u64_mod}
use saturn_crates.Collections.FixedList
use saturn_crates.Collections.FixedSet
use saturn_crates.Transactions.Chain.{
  TxIn, Transaction, TxStatus, OutPoint, outpoint_eq, zero_rune, RuneId,
}
use saturn_crates.Transactions.Errors.{
  BitcoinTxError, utxo_not_found_in_user_utxos,
  transaction_input_length_must_match_user_utxos_length, runestone_decipher_error,
}
use saturn_crates.Transactions.Runes.{RuneSet, add_rune_inputs}
use saturn_crates.Transactions.Runes.Ledger.{
  held, deposit, add_rune_inputs-IsValid, held-add_rune_inputs,
}
use saturn_crates.Transactions.Builder.State.{
  UtxoInfo, Caps, Runestone, TransactionBuilder, no_input,
}
use saturn_crates.Transactions.Mempool.{generate_mempool_info}

abbrev pub find_utxo : List UtxoInfo → OutPoint → Option UtxoInfo
find_utxo utxos outpoint = find_first (λ u. outpoint_eq u.meta outpoint) utxos

-- the loop over the inputs, which adds up the runes of their UTXOs
unfoldable pub collect_runes : ℕ → List UtxoInfo → List TxIn → M RuneSet BitcoinTxError (Unit {0})
unfolding add_rune_inputs
collect_runes max_runes utxos [] = return tt
collect_runes max_runes utxos (i ∷ inputs) = elim (find_utxo utxos i.previous_output) [
  | none ↦ fail utxo_not_found_in_user_utxos
  | some u ↦
      add_rune_inputs max_runes (FixedSet.as_slice u.runes) >> collect_runes max_runes utxos inputs
]

abbrev pub runestone_of : Option (Option Runestone) → Result BitcoinTxError Runestone
runestone_of none = ok (record { edicts = []; pointer = none })
runestone_of (some none) = err runestone_decipher_error
runestone_of (some (some r)) = ok r

unfoldable pub new_with_transaction :
    Caps
    → (ℕ → TxStatus)
    → Option (Option Runestone)
    → Transaction
    → List UtxoInfo
    → Result BitcoinTxError TransactionBuilder
unfolding collect_runes generate_mempool_info FixedList.new FixedSet.new
new_with_transaction c get_utxo_status deciphered tx utxos =
    if length tx.input == length utxos
    then (let (r, runes) =
          collect_runes c.max_runes utxos tx.input (FixedSet.new c.max_runes zero_rune) in
        try_ r λ _. try_ (runestone_of deciphered) λ runestone. ok (record {
          transaction = tx;
          tx_statuses = generate_mempool_info get_utxo_status utxos;
          modified_accounts = FixedList.new c.max_modified_accounts none;
          inputs_to_sign = FixedList.new c.max_inputs_to_sign no_input;
          total_btc_input = sum_by (λ u. u.value) utxos % u64_mod;
          total_rune_inputs = runes;
          runestone = runestone;
          total_btc_consolidation_input = 0;
          extra_tx_size_for_consolidation = 0;
        }))
    else err transaction_input_length_must_match_user_utxos_length
