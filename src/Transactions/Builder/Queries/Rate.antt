-- ===== src/Transactions/Builder/Queries/Rate.antt =====
-- When a fee rate is valid.
use saturn_crates.Prelude.{ℕ, ◌+◌, ◌-◌, ◌%◌, ◌≤◌, ◌<◌, ◌≡◌, ◌↔◌, none, some, ok, arith}
use saturn_crates.SafeMath.{u64_mod}
use saturn_crates.Transactions.Chain.{Node, FeeRate}
use saturn_crates.Transactions.Fees.Adjust.{spent}
use saturn_crates.Transactions.Builder.State.{TransactionBuilder}
use saturn_crates.Transactions.Builder.Queries.{
  estimate_final_tx_vsize, get_ancestors_totals, get_fee_paid, is_fee_rate_valid,
}

module _ (node : Node) (rate : FeeRate) (b : TransactionBuilder) where
  abbrev pub Reaches : ℕ → ℕ → Type 0
  Reaches fee size = elim (node.ratio fee size) [ none ↦ ⊥ | some real ↦ rate ≤ real ]

  -- The check passes exactly when the inputs cover the outputs, what they leave reaches the rate for the
  -- size of the transaction, and together with the fees of the pending ancestors, for the size with theirs.
  -- (The outputs sum up below 2^64, and so do the fees.)
  pub is_fee_rate_valid_iff :
      spent b.transaction < u64_mod
      → b.total_btc_input + b.tx_statuses.total_fee < u64_mod
      → (is_fee_rate_valid node rate b ≡ ok tt) ↔ (
          (spent b.transaction ≤ b.total_btc_input)
          × Reaches (b.total_btc_input - spent b.transaction) (estimate_final_tx_vsize node b)
          × Reaches
              (b.total_btc_input - spent b.transaction + b.tx_statuses.total_fee)
              ((estimate_final_tx_vsize node b + b.tx_statuses.total_size) % u64_mod))
  unfolding is_fee_rate_valid get_fee_paid get_ancestors_totals
  is_fee_rate_valid_iff small fees = ground arith
