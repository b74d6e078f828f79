-- ===== src/Transactions/Runes.antt =====
-- `add_rune_input` of saturn-bitcoin-transactions/src/lib.rs and the rune helpers of
-- saturn-bitcoin-transactions/src/utxo_info.rs, over a FixedSet of rune amounts.
pub mod Ledger
use saturn_crates.Prelude.{
  ℕ, ◌+◌, List, [], ◌∷◌, Bool, true, false, Option, none, some, Result, ok, err, panicked, ◌==◌,
  find_first,
}
use saturn_crates.Prelude.Exec.{ok_or, M, ◌>>=◌, ◌>>◌, return}
use mathlib.Core.Option
use saturn_crates.SafeMath.{u128_mod, checked_add}
use saturn_crates.Collections.FixedSet.{FixedSet, as_slice, find, insert_or_modify}
use saturn_crates.Transactions.Chain.{RuneId, id_eq, RuneAmount, rune_eq}
use saturn_crates.Transactions.Errors.{BitcoinTxError, rune_addition_overflow, of_set_error}

abbrev pub RuneSet : Type 0
RuneSet = FixedSet RuneAmount

-- `PartialEq<RuneId>` of RuneAmount, as a test on amounts
abbrev pub is_rune : RuneId → RuneAmount → Bool
is_rune id r = id_eq r.id id

-- the closure that adds `amount` with a check
abbrev pub add_amount {κ} : {E : Type κ} → E → ℕ → RuneAmount → Result E RuneAmount
add_amount e amount r = elim (checked_add u128_mod r.amount amount) [
  | some total ↦ ok (record r { amount = total })
  | none ↦ err e
]

-- `size` is the capacity of the rune set
unfoldable pub add_rune_input :
    ℕ → RuneSet → RuneAmount → Result BitcoinTxError (Unit {0}) × RuneSet
unfolding insert_or_modify
add_rune_input size s rune =
    insert_or_modify rune_eq size of_set_error s rune
      (add_amount rune_addition_overflow rune.amount)

-- `for rune in runes { add_rune_input(total, *rune)?; }`
unfoldable pub add_rune_inputs : ℕ → List RuneAmount → M RuneSet BitcoinTxError (Unit {0})
unfolding add_rune_input
add_rune_inputs size [] = return tt
add_rune_inputs size (rune ∷ runes) = do
  (λ s. add_rune_input size s rune)
  add_rune_inputs size runes

-- `UtxoInfo::rune_amount`
unfoldable pub rune_amount : RuneSet → RuneId → Option ℕ
unfolding find
rune_amount s id = Option.map (λ r. r.amount) (find (is_rune id) s)

-- `UtxoInfo::contains_exact_rune`
unfoldable pub contains_exact_rune : RuneSet → RuneId → ℕ → Bool
unfolding rune_amount
contains_exact_rune s id amount = elim (rune_amount s id) [ none ↦ false | some a ↦ a == amount ]
