-- ===== src/Transactions/Examples/Paying.antt =====
-- What the builder pays, and what its ancestors have paid.
use saturn_crates.Prelude.{ℕ, ◌+◌, ◌≤◌, ◌≡◌, refl, [], ◌∷◌, none, some, ok, err, arith}
use saturn_crates.SafeMath.{u64_mod}
use saturn_crates.Transactions.Chain.{TxStatus}
use saturn_crates.Transactions.Errors.{not_enough_amount_to_cover_fees}
use saturn_crates.Transactions.Builder.State.{TransactionBuilder}
use saturn_crates.SafeMath.{safe_add, safe_sub}
use saturn_crates.Transactions.Fees.{
  varint_len, witness_weight_bytes, estimate_final_tx_vsize, calculate_fees_for_transaction,
  available_for_change, add_change, pay_for_change, settle_change, adjust_transaction_to_pay_fees,
}
use saturn_crates.Transactions.Fees.Adjust.{
  spent, own_fee, WithChange, adjust_transaction_to_pay_fees-pays,
  adjust_transaction_to_pay_fees_short,
}
use saturn_crates.Prelude.{◌%◌}
use saturn_crates.Prelude.{◌↔◌, ◌==◌, if◌then◌else◌}
use saturn_crates.Transactions.Builder.Queries
use saturn_crates.Transactions.Chain.{confirmed}
use saturn_crates.Transactions.Builder.Queries.{is_fee_rate_valid}
use saturn_crates.Transactions.Builder.Queries.Rate.{Reaches, is_fee_rate_valid_iff}
use saturn_crates.Transactions.Mempool.{
  generate_mempool_info, count_from, pending_fees, pending_sizes, first_of_each,
  generate_mempool_info_lem,
}
use saturn_crates.Transactions.Examples.{
  coin, old_coin, one_input, status, node, node-SizeIgnoresValues, payment, calm,
}

adjust_transaction_to_pay_fees-pays_example :
    WithChange
      (some (2 ∷ []))
      payment
      (adjust_transaction_to_pay_fees node [] calm 1 10000 (some (2 ∷ [])) payment).1
    × (spent (adjust_transaction_to_pay_fees node [] calm 1 10000 (some (2 ∷ [])) payment).1
          + own_fee node [] calm 1
              (adjust_transaction_to_pay_fees node [] calm 1 10000 (some (2 ∷ [])) payment).1
        ≤ 10000)
unfolding adjust_transaction_to_pay_fees available_for_change calculate_fees_for_transaction
    add_change pay_for_change settle_change estimate_final_tx_vsize witness_weight_bytes varint_len
    safe_add safe_sub
adjust_transaction_to_pay_fees-pays_example =
    adjust_transaction_to_pay_fees-pays node [] calm 1 node-SizeIgnoresValues 10000 (some (2 ∷ []))
      payment (omega arith) refl

adjust_transaction_to_pay_fees_short_example :
    adjust_transaction_to_pay_fees node [] calm 1 1050 none payment
    ≡ (err not_enough_amount_to_cover_fees, payment)
unfolding estimate_final_tx_vsize witness_weight_bytes varint_len
adjust_transaction_to_pay_fees_short_example =
    adjust_transaction_to_pay_fees_short node [] calm 1 1050 none payment (omega arith)
      (omega arith) (omega arith)

abbrev paying : TransactionBuilder
paying = record one_input { transaction = payment }

is_fee_rate_valid_iff_example : (is_fee_rate_valid node 5 paying ≡ ok tt) ↔ (
    (1000 ≤ 2000)
    × Reaches node 5 paying 1000 (Queries.estimate_final_tx_vsize node paying)
    × Reaches node 5 paying 1000 ((Queries.estimate_final_tx_vsize node paying + 0) % u64_mod))
is_fee_rate_valid_iff_example = is_fee_rate_valid_iff node 5 paying (omega arith) (omega arith)

abbrev statuses : ℕ → TxStatus
statuses txid = if txid == 7 then status else confirmed

generate_mempool_info_lem_example :
    ((generate_mempool_info statuses (coin ∷ (coin ∷ (old_coin ∷ [])))).total_fee
      ≡ pending_fees statuses (first_of_each statuses [] (coin ∷ (coin ∷ (old_coin ∷ []))))
        % u64_mod)
    × ((generate_mempool_info statuses (coin ∷ (coin ∷ (old_coin ∷ [])))).total_size
        ≡ pending_sizes statuses (first_of_each statuses [] (coin ∷ (coin ∷ (old_coin ∷ []))))
          % u64_mod)
generate_mempool_info_lem_example =
    generate_mempool_info_lem statuses (coin ∷ (coin ∷ (old_coin ∷ [])))

counted_once :
    generate_mempool_info statuses (coin ∷ (coin ∷ (old_coin ∷ [])))
    ≡ record { total_fee = 30; total_size = 200 }
unfolding generate_mempool_info count_from
counted_once = refl
