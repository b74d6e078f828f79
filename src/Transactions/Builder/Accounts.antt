-- ===== src/Transactions/Builder/Accounts.antt =====
-- The methods of TransactionBuilder that spend the UTXO of an account:
-- saturn-bitcoin-transactions/src/lib.rs, from `create_state_account` to
-- `insert_state_transition_input`.
--
-- `add_state_transition` of arch_program and the call that creates an account belong to the runtime: they
-- are the parameters `transition` and `created`.
use saturn_crates.Prelude.{ℕ, ◌%◌, Result, length}
use saturn_crates.Prelude.Exec.{◌>>=◌, ◌>>◌, lift, get, modify}
use saturn_crates.SafeMath.{u32_mod}
use saturn_crates.Collections.FixedSet
use saturn_crates.Transactions.Chain.{Transaction}
use saturn_crates.Transactions.Errors.{BitcoinTxError}
use saturn_crates.Transactions.Builder.State.{
  UtxoInfo, AccountInfo, Caps, Build, dust_limit, unsigned_input, push_input_to_sign,
  push_modified_account, insert_input, shift_inputs_to_sign, add_btc, add_runes,
}

module _ (c : Caps)
    (transition : AccountInfo → Transaction → Result BitcoinTxError Transaction) where
  -- `add_state_transition(&mut self.transaction, account)`, which may panic
  unfoldable pub pay_transition : AccountInfo → Build (Unit {0})
  pay_transition account = do
    b ← get
    tx ← lift (transition account b.transaction)
    modify (λ b. record b { transaction = tx })

  -- `created` is what the call that creates the account returns.
  unfoldable pub create_state_account :
      Result BitcoinTxError (Unit {0}) → UtxoInfo → AccountInfo → Build (Unit {0})
  unfolding push_input_to_sign pay_transition push_modified_account add_btc add_runes
  create_state_account created utxo account = do
    b ← get
    push_input_to_sign c
        (record { index = length b.transaction.input % u32_mod; signer = account.key })
    lift created
    pay_transition account
    push_modified_account c account
    add_btc utxo.value
    add_runes c (FixedSet.as_slice utxo.runes)

  unfoldable pub add_state_transition : AccountInfo → Build (Unit {0})
  unfolding push_input_to_sign pay_transition push_modified_account add_btc
  add_state_transition account = do
    b ← get
    push_input_to_sign c
        (record { index = length b.transaction.input % u32_mod; signer = account.key })
    pay_transition account
    push_modified_account c account
    add_btc dust_limit

unfoldable pub insert_state_transition_input : Caps → ℕ → AccountInfo → Build (Unit {0})
unfolding insert_input shift_inputs_to_sign push_input_to_sign push_modified_account add_btc
insert_state_transition_input c tx_index account = do
  insert_input tx_index (unsigned_input account.utxo)
  shift_inputs_to_sign (tx_index % u32_mod)
  push_input_to_sign c (record { index = tx_index % u32_mod; signer = account.key })
  push_modified_account c account
  add_btc dust_limit
