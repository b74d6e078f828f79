-- ===== src/Shards/Settle.antt =====
-- The part of saturn-account-shards/src/split.rs that returns what is left of the satoshis to the
-- shards.
pub mod Outputs
use saturn_crates.Prelude.{
  ℕ, ◌+◌, ◌%◌, List, [], ◌∷◌, ◌++◌, Bool, true, false, not, Option, none, some, Result, ok, err,
  panicked, leb, if◌then◌else◌, length, keep, any, find_first, map, try_,
}
use saturn_crates.Prelude.Exec.{M, ◌>>=◌, ◌>>◌, return, lift, get, modify}
use saturn_crates.Prelude.Sort.{sum_by, sort_by}
use saturn_crates.SafeMath.{MathError, conversion_error, u64_mod, u128_mod, safe_add, safe_sub}
use saturn_crates.Collections.FixedSet
use saturn_crates.Transactions.Chain.{
  Node, FeeRate, UtxoMeta, outpoint_eq, TxIn, TxOut, Script, RuneId, RuneAmount, id_eq,
}
use saturn_crates.Transactions.Builder.State.{TransactionBuilder, UtxoInfo, dust_limit}
use saturn_crates.Shards.Set.{StateShard, ShardSet, AccountError, with_ref}
use saturn_crates.Shards.Split.{balance_amount, redistribute_sub_dust_values}

-- one output for each amount, to the program
abbrev pub outputs_for : Script → List ℕ → List TxOut
outputs_for script = map (λ amount. record { value = amount % u64_mod; script_pubkey = script })

abbrev pub is_utxo_used : TransactionBuilder → UtxoInfo → Bool
is_utxo_used b u = any (λ i. outpoint_eq i.previous_output u.meta) b.transaction.input

module _ {S : Type 0} (t : StateShard S) where
  -- The value of the first UTXO of a shard that an outpoint names.
  abbrev pub value_of : UtxoMeta → S → Option ℕ
  value_of meta shard = elim (find_first (λ u. outpoint_eq u.meta meta) (t.btc_utxos shard)) [
    | none ↦ none
    | some u ↦ some u.value
  ]

  -- The loop over the selected shards for one input: it ends at the first that has the UTXO.
  unfoldable pub spent_value : ShardSet S → UtxoMeta → List ℕ → Result MathError (Option ℕ)
  unfolding with_ref
  spent_value shards meta [] = ok none
  spent_value shards meta (idx ∷ rest) =
      let later = spent_value shards meta rest in
      elim (with_ref shards idx (value_of meta)) [
        | ok none ↦ later
        | ok (some value) ↦ ok (some value)
        | err _ ↦ err conversion_error
        | panicked ↦ panicked
      ]

  -- The loop over the inputs.
  unfoldable pub spent_total : ShardSet S → List TxIn → ℕ → Result MathError ℕ
  unfolding spent_value
  spent_total shards [] total = ok total
  spent_total shards (i ∷ inputs) total =
      try_ (spent_value shards i.previous_output shards.selected) λ value.
        try_ (elim value [ none ↦ ok total | some v ↦ safe_add u64_mod total v ])
          λ so_far. spent_total shards inputs so_far

  unfoldable pub compute_unsettled_btc_in_shards :
      Node → FeeRate → TransactionBuilder → ShardSet S → ℕ → Result MathError ℕ
  unfolding spent_total
  compute_unsettled_btc_in_shards node rate b shards removed =
      try_ (spent_total shards b.transaction.input 0) λ total.
        try_ (safe_add u64_mod total b.total_btc_consolidation_input) λ all.
          try_ (safe_sub u64_mod all removed)
            λ rest. safe_sub u64_mod rest (node.fee rate b.extra_tx_size_for_consolidation)

  -- the satoshis of a shard that the transaction does not spend
  abbrev pub unspent : TransactionBuilder → S → ℕ
  unspent b shard =
      sum_by (λ u. u.value) (keep (λ u. not (is_utxo_used b u)) (t.btc_utxos shard)) % u128_mod

  -- the amount of a rune in a shard
  abbrev pub rune_of : RuneId → S → ℕ
  rune_of id shard = elim (t.rune_utxo shard) [
    | none ↦ 0
    | some u ↦ elim (find_first (λ r. id_eq r.id id) (FixedSet.as_slice u.runes)) [
      | none ↦ 0
      | some r ↦ r.amount
    ]
  ]

  abbrev pub current_amount : Node → TransactionBuilder → RuneId → S → ℕ
  current_amount node b id shard = if id_eq id node.btc then unspent b shard else rune_of id shard

  -- `with_ref(…).unwrap_or(0)`
  unfoldable pub read_amount :
      Node → TransactionBuilder → ShardSet S → RuneId → ℕ → Result MathError ℕ
  unfolding with_ref
  read_amount node b shards id idx = elim (with_ref shards idx (current_amount node b id)) [
    | ok current ↦ ok current
    | err _ ↦ ok 0
    | panicked ↦ panicked
  ]

  unfoldable pub balance_amount_across_shards :
      Node → TransactionBuilder → ShardSet S → RuneAmount → Result MathError (List ℕ)
  unfolding read_amount balance_amount
  balance_amount_across_shards node b shards rune =
      balance_amount rune.amount (map (read_amount node b shards rune.id) shards.selected)

  unfoldable pub plan_btc_distribution_among_shards :
      Node → TransactionBuilder → ShardSet S → ℕ → Result MathError (List ℕ)
  unfolding balance_amount_across_shards redistribute_sub_dust_values
  plan_btc_distribution_among_shards node b shards amount =
      try_ (balance_amount_across_shards node b shards (record { id = node.btc; amount = amount }))
        λ result. redistribute_sub_dust_values dust_limit result

  unfoldable pub redistribute_remaining_btc_to_shards :
      Node → FeeRate → ShardSet S → ℕ → Script → M TransactionBuilder MathError (List ℕ)
  unfolding compute_unsettled_btc_in_shards plan_btc_distribution_among_shards sort_by
  redistribute_remaining_btc_to_shards node rate shards removed script = do
    b ← get
    remaining ← lift (compute_unsettled_btc_in_shards node rate b shards removed)
    distribution ← lift (plan_btc_distribution_among_shards node b shards remaining)
    modify (λ b. record b {
      transaction = record b.transaction {
        output = b.transaction.output ++ outputs_for script (sort_by (λ x y. leb y x) distribution);
      };
    })
    return (sort_by (λ x y. leb y x) distribution)
