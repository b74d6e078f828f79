-- ===== src/Transactions/Reserve.antt =====
-- The second half of saturn-bitcoin-transactions/src/calc_fee.rs: the size of a transaction with inputs
-- and outputs that may still be added, which are added for the estimate and taken out again.
pub mod Reserved
pub mod Rollback
use saturn_crates.Prelude.{
  ℕ, zero, suc, ◌+◌, ◌-◌, ◌%◌, List, [], ◌∷◌, ◌++◌, Option, none, some, Result, ok, err, panicked,
  leb, if◌then◌else◌, length, take, replicate, map_err,
}
use saturn_crates.Prelude.Exec.{M, ◌>>=◌, ◌>>◌, return, get, modify, map_err_m}
use saturn_crates.SafeMath.{u32_mod}
use saturn_crates.Collections.PushPop.{PushPop, PushPopError}
use saturn_crates.Transactions.Chain.{Node, Transaction, TxIn, TxOut, InputToSign}
use saturn_crates.Transactions.Errors.{BitcoinTxError, input_to_sign_list_full}
use saturn_crates.Transactions.Fees.{estimate_final_tx_total_size, estimate_final_tx_vsize}

pub record NewPotentialInputAmount : Type 0 where
  pub count : ℕ
  pub item : TxIn
  pub signer : Option ℕ

pub record NewPotentialOutputAmount : Type 0 where
  pub count : ℕ
  pub item : TxOut

pub record NewPotentialInputsAndOutputs : Type 0 where
  pub inputs : Option NewPotentialInputAmount
  pub outputs : List NewPotentialOutputAmount

-- the two `&mut` arguments
pub record Draft (C : Type 0) : Type 0 where
  pub transaction : Transaction
  pub inputs_to_sign : C

-- `truncate(len() - count)`: where the subtraction wraps around, nothing is cut off
abbrev pub drop_last {ℓ} : {A : Type ℓ} → ℕ → List A → List A
drop_last count xs = if leb count (length xs) then take (length xs - count) xs else xs

unfoldable pub add_outputs : List NewPotentialOutputAmount → List TxOut → List TxOut
add_outputs [] os = os
add_outputs (n ∷ ns) os = add_outputs ns (os ++ replicate n.count n.item)

unfoldable pub rollback_outputs : List NewPotentialOutputAmount → List TxOut → List TxOut
rollback_outputs [] os = os
rollback_outputs (n ∷ ns) os = rollback_outputs ns (drop_last n.count os)

module _ {C : Type 0} (p : PushPop C InputToSign) where
  unfoldable pub sign : ℕ → ℕ → M (Draft C) PushPopError (Unit {0})
  sign index signer d =
      let (r, c) = p.push d.inputs_to_sign (record { index = index % u32_mod; signer = signer }) in
      (r, record d { inputs_to_sign = c })

  abbrev pub push_input : TxIn → Draft C → Draft C
  push_input item d = record d {
    transaction = record d.transaction { input = d.transaction.input ++ (item ∷ []) };
  }

  abbrev pub with_outputs : (List TxOut → List TxOut) → Draft C → Draft C
  with_outputs f d = record d {
    transaction = record d.transaction { output = f d.transaction.output };
  }

  -- `for i in 0..count`, from `i` on, with `count` rounds to go
  unfoldable pub add_inputs : ℕ → TxIn → Option ℕ → ℕ → ℕ → M (Draft C) PushPopError (Unit {0})
  unfolding sign
  add_inputs start item signer i zero = return tt
  add_inputs start item none i (suc count) = do
    modify (push_input item)
    add_inputs start item none (suc i) count
  add_inputs start item (some signer) i (suc count) = do
    sign (start + i) signer
    modify (push_input item)
    add_inputs start item (some signer) (suc i) count

  unfoldable pub add_reserved_inputs :
      Option NewPotentialInputAmount → M (Draft C) PushPopError (Unit {0})
  unfolding add_inputs
  add_reserved_inputs none = return tt
  add_reserved_inputs (some n) = do
    d ← get
    add_inputs (length d.transaction.input) n.item n.signer 0 n.count

  unfoldable pub add_reserved_inputs_and_outputs :
      NewPotentialInputsAndOutputs → M (Draft C) PushPopError (Unit {0})
  unfolding add_reserved_inputs add_outputs
  add_reserved_inputs_and_outputs n = do
    add_reserved_inputs n.inputs
    modify (with_outputs (add_outputs n.outputs))

  abbrev pub pop_signs : ℕ → C → C
  pop_signs zero c = c
  pop_signs (suc count) c = pop_signs count (p.pop c).1

  abbrev pub rollback_signs : Option ℕ → ℕ → C → C
  rollback_signs none count c = c
  rollback_signs (some _) count c = pop_signs count c

  unfoldable pub rollback_inputs : Option NewPotentialInputAmount → Draft C → Draft C
  rollback_inputs none d = d
  rollback_inputs (some n) d = record {
    transaction = record d.transaction { input = drop_last n.count d.transaction.input };
    inputs_to_sign = rollback_signs n.signer n.count d.inputs_to_sign;
  }

  unfoldable pub rollback_potential_inputs_and_outputs :
      NewPotentialInputsAndOutputs → Draft C → Draft C
  unfolding rollback_inputs rollback_outputs
  rollback_potential_inputs_and_outputs n d =
      with_outputs (rollback_outputs n.outputs) (rollback_inputs n.inputs d)

  unfoldable pub estimate_tx_size_with_additional_inputs_outputs :
      Node → NewPotentialInputsAndOutputs → M (Draft C) BitcoinTxError ℕ
  unfolding add_reserved_inputs_and_outputs rollback_potential_inputs_and_outputs
  estimate_tx_size_with_additional_inputs_outputs node n = do
    map_err_m (λ _. input_to_sign_list_full) (add_reserved_inputs_and_outputs n)
    d ← get
    modify (rollback_potential_inputs_and_outputs n)
    return (estimate_final_tx_total_size node d.transaction (p.as_slice d.inputs_to_sign))

  unfoldable pub estimate_tx_vsize_with_additional_inputs_outputs :
      Node → NewPotentialInputsAndOutputs → M (Draft C) BitcoinTxError ℕ
  unfolding add_reserved_inputs_and_outputs rollback_potential_inputs_and_outputs
  estimate_tx_vsize_with_additional_inputs_outputs node n = do
    map_err_m (λ _. input_to_sign_list_full) (add_reserved_inputs_and_outputs n)
    d ← get
    modify (rollback_potential_inputs_and_outputs n)
    return (estimate_final_tx_vsize node d.transaction (p.as_slice d.inputs_to_sign))
