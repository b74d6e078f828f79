-- ===== src/Transactions/Fees.antt =====
-- saturn-bitcoin-transactions/src/input_calc.rs and calc_fee.rs: the size that a transaction will have
-- when it is signed, the fees for it, and the change output that pays the rest back.
pub mod Adjust
use saturn_crates.Prelude.{
  ℕ, ◌-◌, ◌+◌, ◌*◌, ◌/◌, ◌%◌, ◌^◌, min, List, [], ◌∷◌, ◌++◌, Option, none, some, Result, ok, err,
  panicked, leb, if◌then◌else◌, length, map_err, try_,
}
use saturn_crates.Prelude.Exec.{M, ◌>>=◌, ◌>>◌, return, lift, get, modify}
use saturn_crates.Prelude.Sort.{sum_by}
use saturn_crates.SafeMath.{MathError, u64_mod, safe_add, safe_sub}
use saturn_crates.Collections.PushPop.{pop_vec}
use saturn_crates.Transactions.Chain.{
  Node, FeeRate, Transaction, TxOut, Script, InputToSign, MempoolInfo,
}
use saturn_crates.Transactions.Builder.State.{dust_limit}
use saturn_crates.Transactions.Errors.{
  BitcoinTxError, not_enough_amount_to_cover_fees, of_math_error,
}

abbrev pub redeem_script_size : ℕ
redeem_script_size = 83

abbrev pub control_block_size : ℕ
control_block_size = 33

unfoldable pub varint_len : ℕ → ℕ
varint_len n =
    if leb n 252 then 1 else if leb n 65535 then 3 else if leb n (2 ^ 32 - 1) then 5 else 9

abbrev pub witness_weight_overhead : ℕ
witness_weight_overhead = 2

abbrev pub uncovered : Result MathError ℕ → Result BitcoinTxError ℕ
uncovered = map_err (λ _. not_enough_amount_to_cover_fees)

abbrev pub push_output : TxOut → Transaction → Transaction
push_output o tx = record tx { output = tx.output ++ (o ∷ []) }

abbrev pub pop_output : Transaction → Transaction
pop_output tx = record tx { output = (pop_vec tx.output).1 }

-- `transaction.output.last_mut().unwrap().value = value`
abbrev pub set_last_value : ℕ → List TxOut → List TxOut
set_last_value value [] = []
set_last_value value (o ∷ []) = record o { value = value } ∷ []
set_last_value value (o ∷ (p ∷ os)) = o ∷ set_last_value value (p ∷ os)

-- The change output keeps what is left of `available`, or is taken out again.
unfoldable pub settle_change : Result MathError ℕ → M Transaction BitcoinTxError (Unit {0})
settle_change (ok value) =
    if leb dust_limit value
    then modify (λ tx. record tx { output = set_last_value value tx.output })
    else modify pop_output
settle_change (err e) = modify pop_output
settle_change panicked = λ tx. (panicked, tx)

module _ (n : Node) where
  -- `simulated_witness_weight`, and the constant `WITNESS_WEIGHT_BYTES` that it gives
  unfoldable pub witness_weight_bytes : ℕ
  unfolding varint_len
  witness_weight_bytes =
      varint_len 3
      + (varint_len n.schnorr_signature_size + n.schnorr_signature_size)
      + (varint_len redeem_script_size + redeem_script_size)
      + (varint_len control_block_size + control_block_size)

  unfoldable pub estimate_final_tx_total_size : Transaction → List InputToSign → ℕ
  estimate_final_tx_total_size tx signs =
      (n.total_size tx + length signs * witness_weight_bytes + witness_weight_overhead) % u64_mod

  unfoldable pub estimate_final_tx_vsize : Transaction → List InputToSign → ℕ
  estimate_final_tx_vsize tx signs =
      (n.vsize tx + ((length signs * witness_weight_bytes + witness_weight_overhead) % u64_mod) / 4)
      % u64_mod

  -- the fee with that of the pending ancestors, and without
  unfoldable pub calculate_fees_for_transaction :
      Transaction → List InputToSign → ℕ → FeeRate → Result BitcoinTxError (ℕ × ℕ)
  calculate_fees_for_transaction tx signs pending rate =
      let base = estimate_final_tx_vsize tx signs in
      try_ (map_err of_math_error (safe_add u64_mod base pending))
        λ total. ok (n.fee rate total, n.fee rate base)

  module _ (signs : List InputToSign) (statuses : MempoolInfo) (rate : FeeRate) where
    -- adds a change output, and takes from it what it costs
    unfoldable pub pay_for_change : Script → ℕ → ℕ → M Transaction BitcoinTxError (Unit {0})
    unfolding settle_change
    pay_for_change script available fee = do
      modify (push_output (record { value = available; script_pubkey = script }))
      tx ← get
      (_, new_fee) ← lift (calculate_fees_for_transaction tx signs statuses.total_size rate)
      difference ← lift (map_err of_math_error (safe_sub u64_mod new_fee fee))
      settle_change (safe_sub u64_mod available difference)

    -- the `if let Some(change_script)` at the end
    unfoldable pub add_change : Option Script → ℕ → ℕ → M Transaction BitcoinTxError (Unit {0})
    unfolding pay_for_change
    add_change none available fee = return tt
    add_change (some script) available fee =
        if leb dust_limit available then pay_for_change script available fee else return tt

    -- what the change can be before it pays for itself, with the fee without ancestors
    unfoldable pub available_for_change : ℕ → Transaction → Result BitcoinTxError (ℕ × ℕ)
    unfolding calculate_fees_for_transaction
    available_for_change total_btc_amount tx =
        try_
          (uncovered
            (safe_sub u64_mod total_btc_amount (sum_by (λ o. o.value) tx.output % u64_mod)))
          λ remaining.
            try_ (calculate_fees_for_transaction tx signs statuses.total_size rate) λ fees.
              try_ (uncovered (safe_sub u64_mod remaining fees.1)) λ change_without.
                try_ (map_err of_math_error (safe_add u64_mod remaining statuses.total_fee)) λ paid.
                  try_ (uncovered (safe_sub u64_mod paid fees.0))
                    λ change_with. ok (min change_without change_with, fees.1)

    unfoldable pub adjust_transaction_to_pay_fees :
        ℕ → Option Script → M Transaction BitcoinTxError (Unit {0})
    unfolding available_for_change add_change
    adjust_transaction_to_pay_fees total_btc_amount script = do
      tx ← get
      (available, fee) ← lift (available_for_change total_btc_amount tx)
      add_change script available fee
