-- ===== src/Transactions/Builder/Inputs.antt =====
-- The methods of TransactionBuilder that add inputs:
-- saturn-bitcoin-transactions/src/lib.rs, from `add_tx_input` to `insert_user_tx_input`.
use saturn_crates.Prelude.{ℕ, ◌%◌, length}
use saturn_crates.Prelude.Exec.{◌>>◌}
use saturn_crates.SafeMath.{u32_mod}
use saturn_crates.Collections.FixedSet
use saturn_crates.Transactions.Chain.{TxIn, TxStatus}
use saturn_crates.Transactions.Builder.State.{
  UtxoInfo, Caps, Build, unsigned_input, push_input_to_sign, push_input, insert_input,
  shift_inputs_to_sign, add_btc, add_tx_status, add_runes,
}

module _ (c : Caps) where
  unfoldable pub add_tx_input : UtxoInfo → TxStatus → ℕ → Build (Unit {0})
  add_tx_input utxo status signer b =
      (do
        push_input_to_sign c
            (record { index = length b.transaction.input % u32_mod; signer = signer })
        add_tx_status utxo status
        push_input (unsigned_input utxo.meta)
        add_btc utxo.value
        add_runes c (FixedSet.as_slice utxo.runes))
        b

  unfoldable pub add_user_tx_input : UtxoInfo → TxStatus → TxIn → Build (Unit {0})
  add_user_tx_input utxo status tx_in = do
    add_tx_status utxo status
    push_input tx_in
    add_btc utxo.value
    add_runes c (FixedSet.as_slice utxo.runes)

  unfoldable pub insert_tx_input : ℕ → UtxoInfo → TxStatus → ℕ → Build (Unit {0})
  insert_tx_input tx_index utxo status signer = do
    add_tx_status utxo status
    insert_input tx_index (unsigned_input utxo.meta)
    shift_inputs_to_sign (tx_index % u32_mod)
    push_input_to_sign c (record { index = tx_index % u32_mod; signer = signer })
    add_btc utxo.value
    add_runes c (FixedSet.as_slice utxo.runes)

  unfoldable pub insert_user_tx_input : ℕ → UtxoInfo → TxStatus → TxIn → Build (Unit {0})
  insert_user_tx_input tx_index utxo status tx_in = do
    add_tx_status utxo status
    insert_input tx_index tx_in
    shift_inputs_to_sign (tx_index % u32_mod)
    add_btc utxo.value
    add_runes c (FixedSet.as_slice utxo.runes)
