-- ===== src/Transactions/Util.antt =====
-- saturn-bitcoin-transactions/src/util.rs: the accounts that a transaction uses, in the order of its outputs.
--
-- `size` is the const parameter, and `script` is `get_account_script_pubkey` of arch_program.
pub mod Pushed
pub mod Order
mod Examples
use saturn_crates.Prelude.{
  ℕ, ◌+◌, List, [], ◌∷◌, Bool, true, false, Option, none, some, Result, ok, err, panicked, try_,
  ◌==◌, if◌then◌else◌, get_elem?, find_first,
}
use saturn_crates.Prelude.Exec.{M, ◌>>=◌, ◌>>◌, return}
use saturn_crates.Collections.FixedList
use saturn_crates.Collections.FixedList.{FixedList, FixedListError}
use saturn_crates.Transactions.Chain.{Script, script_eq, Transaction, TxOut}
use saturn_crates.Transactions.Builder.State.{AccountInfo}

-- the loop over the accounts, from `index` on
unfoldable pub push_writable : ℕ → ℕ → List AccountInfo → M (FixedList ℕ) FixedListError (Unit {0})
unfolding FixedList.push
push_writable size index [] = return tt
push_writable size index (account ∷ accounts) =
    let later = push_writable size (index + 1) accounts in
    if account.is_writable then (do (λ used. FixedList.push size used index); later) else later

module _ (script : ℕ → Script) where
  -- the account at an index is there and has the script of the output
  abbrev pub pays_to : List AccountInfo → TxOut → ℕ → Bool
  pays_to accounts output index = elim (get_elem? accounts index) [
    | none ↦ false
    | some account ↦ script_eq output.script_pubkey (script account.key)
  ]

  -- the loop over the outputs
  unfoldable pub push_matches :
      ℕ → List AccountInfo → List ℕ → List TxOut → M (FixedList ℕ) FixedListError (Unit {0})
  unfolding FixedList.push
  push_matches size accounts indexes [] = return tt
  push_matches size accounts indexes (output ∷ outputs) =
      let later = push_matches size accounts indexes outputs in
      elim (find_first (pays_to accounts output) indexes) [
        | none ↦ later
        | some index ↦ (do (λ reordered. FixedList.push size reordered index); later)
      ]

  unfoldable pub reorder_accounts_in_transaction :
      ℕ → Transaction → List AccountInfo → FixedList ℕ → Result FixedListError (FixedList ℕ)
  unfolding FixedList.new push_matches FixedList.copy_from_slice
  reorder_accounts_in_transaction size tx accounts indexes =
      let (r, reordered) =
        push_matches size accounts (FixedList.as_slice indexes) tx.output (FixedList.new size 0) in
      try_ r λ _.
        if reordered.len == indexes.len
        then elim (FixedList.copy_from_slice indexes (FixedList.as_slice reordered)).0 [
          | ok _ ↦ ok (FixedList.copy_from_slice indexes (FixedList.as_slice reordered)).1
          | err e ↦ absurd e
          | panicked ↦ panicked
        ]
        else panicked

  unfoldable pub get_used_shards_in_transaction :
      ℕ → Transaction → List AccountInfo → Result FixedListError (FixedList ℕ)
  unfolding FixedList.new push_writable reorder_accounts_in_transaction
  get_used_shards_in_transaction size tx accounts =
      let (r, used) = push_writable size 0 accounts (FixedList.new size 0) in
      try_ r λ _. reorder_accounts_in_transaction size tx accounts used
