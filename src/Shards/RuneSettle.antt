-- ===== src/Shards/RuneSettle.antt =====
-- The part of saturn-account-shards/src/split.rs that returns what is left of the runes to the shards.
pub mod Emitted
use saturn_crates.Prelude.{
  ℕ, zero, suc, ◌+◌, ◌%◌, ◌==◌, List, [], ◌∷◌, ◌++◌, Bool, true, false, Option, none, some, Result,
  ok, err, panicked, leb, ltb, if◌then◌else◌, length, replicate, map, map_err, try_,
}
use saturn_crates.Prelude.Exec.{M, ◌>>=◌, ◌>>◌, return, fail, lift, get, modify}
use saturn_crates.Prelude.Sort.{sum_by, sort_by}
use saturn_crates.SafeMath.{u32_mod, u128_mod, safe_sub}
use saturn_crates.Collections.FixedSet
use saturn_crates.Transactions.Chain.{Node, TxOut, Script, RuneId, RuneAmount, rune_eq, zero_rune}
use saturn_crates.Transactions.Runes.{RuneSet, is_rune, add_amount}
use saturn_crates.Transactions.Builder.State.{TransactionBuilder, Edict, dust_limit}
use saturn_crates.Shards.Errors.{
  StateShardError, of_set_error, rune_amount_addition_overflow,
  removing_more_runes_than_present_in_shards, math_error_in_balance_amount_across_shards,
}
use saturn_crates.Shards.Set.{StateShard, ShardSet, with_ref}
use saturn_crates.Shards.Settle.{balance_amount_across_shards}

module _ (max_runes : ℕ) where
  -- `insert_or_modify` with an addition that is checked; `safe_add` on u128 is `checked_add`
  unfoldable pub deposit_rune : RuneAmount → M RuneSet StateShardError (Unit {0})
  unfolding FixedSet.insert_or_modify
  deposit_rune rune s =
      FixedSet.insert_or_modify rune_eq max_runes of_set_error s rune
        (add_amount rune_amount_addition_overflow rune.amount)

  unfoldable pub deposit_runes : List RuneAmount → M RuneSet StateShardError (Unit {0})
  unfolding deposit_rune
  deposit_runes [] = return tt
  deposit_runes (r ∷ rs) = do deposit_rune r; deposit_runes rs

  module _ {S : Type 0} (t : StateShard S) where
    abbrev pub runes_of : S → List RuneAmount
    runes_of shard = elim (t.rune_utxo shard) [ none ↦ [] | some u ↦ FixedSet.as_slice u.runes ]

    -- the loop over the shards
    unfoldable pub held_runes : ShardSet S → List ℕ → M RuneSet StateShardError (Unit {0})
    unfolding with_ref deposit_runes
    held_runes shards [] = return tt
    held_runes shards (idx ∷ rest) = do
      runes ← lift (map_err (λ _. rune_amount_addition_overflow) (with_ref shards idx runes_of))
      deposit_runes runes
      held_runes shards rest

    abbrev pub less_removed : ℕ → RuneAmount → Result StateShardError RuneAmount
    less_removed amount r =
        try_
          (map_err (λ _. removing_more_runes_than_present_in_shards)
            (safe_sub u128_mod r.amount amount))
          λ left. ok (record r { amount = left })

    -- the loop over what was removed, which passes over a rune that no shard holds
    unfoldable pub subtract_removed : List RuneAmount → M RuneSet StateShardError (Unit {0})
    unfolding FixedSet.find_mut
    subtract_removed [] = return tt
    subtract_removed (r ∷ rs) = do
      FixedSet.find_mut (is_rune r.id) (less_removed r.amount)
      subtract_removed rs

    unfoldable pub compute_unsettled_rune_in_shards :
        ShardSet S → RuneSet → Result StateShardError RuneSet
    unfolding held_runes subtract_removed FixedSet.new
    compute_unsettled_rune_in_shards shards removed =
        let (r, s) =
          (held_runes shards shards.selected >> subtract_removed (FixedSet.as_slice removed))
            (FixedSet.new max_runes zero_rune) in
        try_ r λ _. ok s

    -- one rune's parts, each into the set of its shard, and a part of zero into none
    unfoldable pub add_allocs :
        RuneId → List ℕ → List RuneSet → Result StateShardError (List RuneSet)
    unfolding deposit_rune
    add_allocs id [] sets = ok sets
    add_allocs id (amount ∷ allocs) [] = if amount == 0 then add_allocs id allocs [] else panicked
    add_allocs id (amount ∷ allocs) (s ∷ sets) =
        let (r, s') = deposit_rune (record { id = id; amount = amount }) s in
        let rest = add_allocs id allocs sets in
        if amount == 0
        then (try_ rest λ after. ok (s ∷ after))
        else (try_ r λ _. try_ rest λ after. ok (s' ∷ after))

    -- the loop over the runes
    unfoldable pub plan_runes :
        Node
        → TransactionBuilder
        → ShardSet S
        → List RuneAmount
        → List RuneSet
        → Result StateShardError (List RuneSet)
    unfolding balance_amount_across_shards add_allocs
    plan_runes node b shards [] sets = ok sets
    plan_runes node b shards (r ∷ rs) sets =
        try_
          (map_err (λ _. math_error_in_balance_amount_across_shards)
            (balance_amount_across_shards t node b shards r))
          λ allocs. try_ (add_allocs r.id allocs sets) λ more. plan_runes node b shards rs more

    unfoldable pub plan_rune_distribution_among_shards :
        Node → TransactionBuilder → ShardSet S → RuneSet → Result StateShardError (List RuneSet)
    unfolding plan_runes FixedSet.new
    plan_rune_distribution_among_shards node b shards amounts =
        plan_runes node b shards (FixedSet.as_slice amounts)
          (replicate (length shards.selected) (FixedSet.new max_runes zero_rune))

-- by the sum of the amounts, the biggest first
abbrev pub total_runes : RuneSet → ℕ
total_runes s = sum_by (λ r. r.amount) (FixedSet.as_slice s) % u128_mod

abbrev pub biggest_first : RuneSet → RuneSet → Bool
biggest_first a b = leb (total_runes b) (total_runes a)

abbrev pub edicts_for : ℕ → List RuneAmount → List Edict
edicts_for index = map (λ r. record { id = r.id; amount = r.amount; output = index % u32_mod })

-- The loop over the distribution: one output for each set, and edicts for all but the first.
unfoldable pub emit : Script → ℕ → ℕ → List RuneSet → TransactionBuilder → TransactionBuilder
emit script first index [] b = b
emit script first index (s ∷ sets) b = emit script first (index + 1) sets (record b {
  transaction = record b.transaction {
    output = b.transaction.output ++ (record { value = dust_limit; script_pubkey = script } ∷ []);
  };
  runestone = record b.runestone {
    edicts =
        if ltb first index
        then b.runestone.edicts ++ edicts_for index (FixedSet.as_slice s)
        else b.runestone.edicts;
  };
})

unfoldable pub redistribute_remaining_rune_to_shards :
    {S : Type 0}
    → StateShard S
    → Node
    → ℕ
    → ShardSet S
    → RuneSet
    → Script
    → M TransactionBuilder StateShardError (List RuneSet)
unfolding compute_unsettled_rune_in_shards plan_rune_distribution_among_shards emit sort_by
redistribute_remaining_rune_to_shards t node max_runes shards removed script = do
  b ← get
  remaining ← lift (compute_unsettled_rune_in_shards max_runes t shards removed)
  distribution ← lift (plan_rune_distribution_among_shards max_runes t node b shards remaining)
  modify (λ b.
      emit script (length b.transaction.output) (length b.transaction.output)
        (sort_by biggest_first distribution)
        (record b {
          runestone = record b.runestone { pointer = some (length b.transaction.output % u32_mod) };
        }))
  return (sort_by biggest_first distribution)
