-- ===== src/Transactions/Builder/Queries.antt =====
-- The methods of TransactionBuilder that report fees and check the fee rate:
-- saturn-bitcoin-transactions/src/lib.rs, from `adjust_transaction_to_pay_fees` to
-- `is_fee_rate_valid`. They delegate to the modules Fees and Consolidation.
pub mod Rate
use saturn_crates.Prelude.{
  ℕ, ◌+◌, ◌-◌, ◌%◌, List, Option, none, some, Result, ok, err, panicked, leb, ltb, if◌then◌else◌,
  try_,
}
use saturn_crates.Prelude.Exec.{ok_or}
use saturn_crates.Prelude.Sort.{sum_by}
use saturn_crates.SafeMath.{u64_mod, checked_add, checked_sub}
use saturn_crates.Collections.FixedList
use saturn_crates.Collections.FixedList.Trait.{list_push_pop}
use saturn_crates.Transactions.Chain.{Node, FeeRate, Script, InputToSign}
use saturn_crates.Transactions.Errors.{
  BitcoinTxError, insufficient_input_amount, invalid_fee_rate_too_low,
}
use saturn_crates.Transactions.Builder.State.{UtxoInfo, Caps, TransactionBuilder, Build}
use saturn_crates.Transactions.Fees
use saturn_crates.Transactions.Consolidation
use saturn_crates.Transactions.Reserve.{NewPotentialInputsAndOutputs, Draft}

module _ (node : Node) where
  unfoldable pub adjust_transaction_to_pay_fees : FeeRate → Option Script → Build (Unit {0})
  unfolding Fees.adjust_transaction_to_pay_fees
  adjust_transaction_to_pay_fees rate script b =
      let (r, tx) =
        Fees.adjust_transaction_to_pay_fees node (FixedList.as_slice b.inputs_to_sign) b.tx_statuses
          rate b.total_btc_input script b.transaction in
      (r, record b { transaction = tx })

  -- `size` is `ARCH_INPUT_SIZE`
  unfoldable pub add_consolidation_utxos :
      Caps
      → ℕ
      → ℕ
      → FeeRate
      → List UtxoInfo
      → NewPotentialInputsAndOutputs
      → TransactionBuilder
      → TransactionBuilder
  unfolding Consolidation.add_consolidation_utxos list_push_pop
  add_consolidation_utxos c size pool_pubkey rate utxos n b =
      let (added, d) =
        Consolidation.add_consolidation_utxos (list_push_pop c.max_inputs_to_sign InputToSign) node
          n pool_pubkey utxos rate size
          (record { transaction = b.transaction; inputs_to_sign = b.inputs_to_sign }) in
      record b {
        transaction = d.transaction;
        inputs_to_sign = d.inputs_to_sign;
        total_btc_input = (b.total_btc_input + added.0) % u64_mod;
        extra_tx_size_for_consolidation = added.1;
        total_btc_consolidation_input = added.0;
      }

  unfoldable pub estimate_final_tx_vsize : TransactionBuilder → ℕ
  unfolding Fees.estimate_final_tx_vsize
  estimate_final_tx_vsize b =
      Fees.estimate_final_tx_vsize node b.transaction (FixedList.as_slice b.inputs_to_sign)

  unfoldable pub get_fee_paid_by_program : FeeRate → TransactionBuilder → ℕ
  get_fee_paid_by_program rate b = node.fee rate b.extra_tx_size_for_consolidation

  -- the subtraction of sizes wraps around
  unfoldable pub get_fee_paid_by_user : FeeRate → TransactionBuilder → ℕ
  unfolding estimate_final_tx_vsize
  get_fee_paid_by_user rate b =
      node.fee rate
        ((estimate_final_tx_vsize b + u64_mod - b.extra_tx_size_for_consolidation) % u64_mod)

  unfoldable pub get_ancestors_totals : TransactionBuilder → Result BitcoinTxError (ℕ × ℕ)
  get_ancestors_totals b = ok (b.tx_statuses.total_size, b.tx_statuses.total_fee)

  unfoldable pub get_fee_paid : TransactionBuilder → Result BitcoinTxError ℕ
  get_fee_paid b =
      ok_or insufficient_input_amount (
        checked_sub u64_mod b.total_btc_input
          (sum_by (λ o. o.value) b.transaction.output % u64_mod))

  -- the rate of a fee to a size is one, and not below the rate asked for
  abbrev pub reaches : FeeRate → ℕ → ℕ → Result BitcoinTxError (Unit {0})
  reaches rate fee size = elim (node.ratio fee size) [
    | none ↦ err invalid_fee_rate_too_low
    | some real ↦ if ltb real rate then err invalid_fee_rate_too_low else ok tt
  ]

  unfoldable pub is_fee_rate_valid : FeeRate → TransactionBuilder → Result BitcoinTxError (Unit {0})
  unfolding get_fee_paid estimate_final_tx_vsize get_ancestors_totals
  is_fee_rate_valid rate b = try_ (get_fee_paid b) λ fee_paid.
      try_ (reaches rate fee_paid (estimate_final_tx_vsize b)) λ _.
        try_ (get_ancestors_totals b) λ ancestors.
          try_ (ok_or insufficient_input_amount (checked_add u64_mod fee_paid ancestors.1))
            λ fee_with_ancestors.
              reaches rate fee_with_ancestors ((estimate_final_tx_vsize b + ancestors.0) % u64_mod)
