-- ===== src/Transactions/Util/Examples.antt =====
-- The used accounts of a transaction on concrete outputs.
use mathlib.Core.List.{Perm}
use saturn_crates.Prelude.{
  arith, ℕ, ◌≡◌, ◌↔◌, length, refl, List, [], ◌∷◌, true, false, ok, panicked,
}
use saturn_crates.Collections.FixedList.{FixedList, FixedListError}
use saturn_crates.Collections.FixedList
use saturn_crates.Transactions.Chain.{Script, Transaction, TxOut}
use saturn_crates.Transactions.Builder.State.{AccountInfo}
use saturn_crates.Transactions.Util.{
  push_writable, push_matches, reorder_accounts_in_transaction, get_used_shards_in_transaction,
}
use saturn_crates.Transactions.Util.Pushed.{writable_from, matches}
use saturn_crates.Transactions.Util.Order.{get_used_shards_in_transaction_iff}

abbrev script_of : ℕ → Script
script_of key = key ∷ []

abbrev writable : ℕ → AccountInfo
writable key = record { key = key; utxo = record { txid = key; vout = 0 }; is_writable = true }

abbrev read_only : AccountInfo
read_only = record { key = 5; utxo = record { txid = 5; vout = 0 }; is_writable = false }

abbrev accounts : List AccountInfo
accounts = writable 8 ∷ (read_only ∷ (writable 9 ∷ []))

abbrev output_to : ℕ → TxOut
output_to key = record { value = 1000; script_pubkey = script_of key }

abbrev paying_to : List TxOut → Transaction
paying_to outputs = record { version = 2; lock_time = 0; input = []; output = outputs }

abbrev reversed : Transaction
reversed = paying_to (output_to 9 ∷ (output_to 7 ∷ (output_to 8 ∷ [])))

get_used_shards_in_transaction_iff_example :
    ((used : FixedList ℕ) × (get_used_shards_in_transaction script_of 3 reversed accounts ≡ ok used)
      × Perm (FixedList.as_slice used) (writable_from 0 accounts)
      × (FixedList.as_slice used
          ≡ matches script_of accounts (writable_from 0 accounts) reversed.output))
    ↔ (length (matches script_of accounts (writable_from 0 accounts) reversed.output)
        ≡ length (writable_from 0 accounts))
get_used_shards_in_transaction_iff_example =
    get_used_shards_in_transaction_iff script_of 3 reversed accounts
      ((refl, (refl, tt)), ((refl, tt), (tt, tt))) (omega arith)

-- The outputs pay to the last account first.
test_used_reversed :
    get_used_shards_in_transaction script_of 3 reversed accounts
    ≡ ok (record { items = 2 ∷ (0 ∷ (0 ∷ [])); len = 2 })
unfolding get_used_shards_in_transaction push_writable reorder_accounts_in_transaction push_matches
    FixedList.new FixedList.push FixedList.copy_from_slice
test_used_reversed = refl

-- Two outputs to one account and none to the other: the account is listed twice.
test_used_twice :
    get_used_shards_in_transaction script_of 2
      (paying_to (output_to 8 ∷ (output_to 8 ∷ [])))
      accounts
    ≡ ok (record { items = 0 ∷ (0 ∷ []); len = 2 })
unfolding get_used_shards_in_transaction push_writable reorder_accounts_in_transaction push_matches
    FixedList.new FixedList.push FixedList.copy_from_slice
test_used_twice = refl

-- An account without an output stops the program.
test_used_unpaid :
    get_used_shards_in_transaction script_of 2 (paying_to (output_to 8 ∷ [])) accounts ≡ panicked
unfolding get_used_shards_in_transaction push_writable reorder_accounts_in_transaction push_matches
    FixedList.new FixedList.push FixedList.copy_from_slice
test_used_unpaid = refl
