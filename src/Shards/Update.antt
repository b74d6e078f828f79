-- ===== src/Shards/Update.antt =====
-- saturn-account-shards/src/update.rs, as far as it changes shards: spent UTXOs leave them, new ones
-- enter the shard that holds the least.
pub mod Best
pub mod Without
pub mod Spent
pub mod Inserted
use saturn_crates.Prelude.{
  ℕ, ◌-◌, ◌%◌, ◌^◌, List, [], ◌∷◌, Bool, true, false, not, ◌&&◌, Option, none, some, Result, ok,
  err, panicked, leb, ltb, if◌then◌else◌, keep, map_err,
}
use saturn_crates.Prelude.Exec.{M, ◌>>=◌, ◌>>◌, return, fail, lift, get, map_err_m, ok_or}
use saturn_crates.Prelude.Sort.{sum_by, sort_by}
use saturn_crates.SafeMath.{u64_mod}
use saturn_crates.Transactions.Chain.{UtxoMeta, outpoint_eq, FeeRate}
use saturn_crates.Transactions.Builder.State.{UtxoInfo}
use saturn_crates.Shards.Errors.{
  StateShardError, rune_amount_addition_overflow, shards_are_full_of_btc_utxos,
}
use saturn_crates.Shards.Set.{StateShard, ShardSet, AccountError, with_ref, with_mut}

module _ {S : Type 0} (t : StateShard S) where
  -- the closure that takes a UTXO out of a shard
  abbrev pub without : UtxoMeta → S → S
  without meta shard =
      let kept = t.btc_utxos_retain (λ u. not (outpoint_eq u.meta meta)) shard in
      elim (t.rune_utxo kept) [
        | none ↦ kept
        | some u ↦ if outpoint_eq u.meta meta then t.clear_rune_utxo kept else kept
      ]

  -- the loop over the shards for one UTXO
  unfoldable pub remove_utxo : UtxoMeta → List ℕ → M (ShardSet S) StateShardError (Unit {0})
  unfolding with_mut
  remove_utxo meta [] = return tt
  remove_utxo meta (idx ∷ rest) = do
    map_err_m (λ _. rune_amount_addition_overflow)
        (with_mut idx (λ shard. (tt, without meta shard)))
    remove_utxo meta rest

  unfoldable pub remove_utxos_from_shards :
      List ℕ → List UtxoMeta → M (ShardSet S) StateShardError (Unit {0})
  unfolding remove_utxo
  remove_utxos_from_shards indexes [] = return tt
  remove_utxos_from_shards indexes (meta ∷ rest) = do
    remove_utxo meta indexes
    remove_utxos_from_shards indexes rest

  -- room for one more UTXO, and the sum of those that are there
  abbrev pub can_use : S → Bool × ℕ
  can_use shard = (
    ltb (t.btc_utxos_len shard) (t.btc_utxos_max_len shard),
    sum_by (λ u. u.value) (t.btc_utxos shard) % u64_mod,
  )

  -- The loop over the shards, with the best so far. A shard that cannot be read is passed over.
  unfoldable pub best_from : ShardSet S → List ℕ → Option ℕ → ℕ → Result StateShardError (Option ℕ)
  unfolding with_ref
  best_from shards [] best smallest = ok best
  best_from shards (idx ∷ rest) best smallest =
      let skipped = best_from shards rest best smallest in
      elim (with_ref shards idx can_use) [
        | ok (spare, sum) ↦
            if spare && ltb sum smallest then best_from shards rest (some idx) sum else skipped
        | err _ ↦ skipped
        | panicked ↦ panicked
      ]

  unfoldable pub select_best_shard_to_add_btc_to :
      ShardSet S → List ℕ → Result StateShardError (Option ℕ)
  unfolding best_from
  select_best_shard_to_add_btc_to shards indexes = best_from shards indexes none (u64_mod - 1)

  -- Step 2: a shard without a rune UTXO takes the next one.
  abbrev pub take_rune : List UtxoInfo → S → List UtxoInfo × S
  take_rune utxos shard = elim (t.rune_utxo shard) [
    | some _ ↦ (utxos, shard)
    | none ↦ elim utxos [ [] ↦ ([], shard) | u ∷ us ↦ (us, t.set_rune_utxo u shard) ]
  ]

  unfoldable pub insert_rune_utxos :
      List ℕ → List UtxoInfo → M (ShardSet S) StateShardError (Unit {0})
  unfolding with_mut
  insert_rune_utxos [] utxos = return tt
  insert_rune_utxos (idx ∷ rest) utxos = do
    left ← map_err_m (λ _. rune_amount_addition_overflow) (with_mut idx (take_rune utxos))
    insert_rune_utxos rest left

  -- `with_ref(|shard| shard.btc_utxos_len() > 1).unwrap_or(false)`
  abbrev pub is_crowded : ShardSet S → ℕ → Result StateShardError Bool
  is_crowded shards idx = elim (with_ref shards idx (λ shard. ltb 1 (t.btc_utxos_len shard))) [
    | ok crowded ↦ ok crowded
    | err _ ↦ ok false
    | panicked ↦ panicked
  ]

  -- what the loop of step 3 does with one UTXO
  unfoldable pub add_btc : FeeRate → List ℕ → UtxoInfo → M (ShardSet S) StateShardError (Unit {0})
  unfolding select_best_shard_to_add_btc_to with_ref with_mut
  add_btc rate indexes utxo = do
    shards ← get
    best ← lift (select_best_shard_to_add_btc_to shards indexes)
    target ← lift (ok_or shards_are_full_of_btc_utxos best)
    crowded ← lift (is_crowded shards target)
    added ←
        map_err_m (λ _. shards_are_full_of_btc_utxos)
          (with_mut target (
            t.add_btc_utxo
              (if crowded then record utxo { needs_consolidation = some rate } else utxo)))
    elim added [ none ↦ fail shards_are_full_of_btc_utxos | some _ ↦ return tt ]

  unfoldable pub add_btc_utxos :
      FeeRate → List ℕ → List UtxoInfo → M (ShardSet S) StateShardError (Unit {0})
  unfolding add_btc
  add_btc_utxos rate indexes [] = return tt
  add_btc_utxos rate indexes (u ∷ us) = do add_btc rate indexes u; add_btc_utxos rate indexes us

  unfoldable pub update_shards_utxos :
      List ℕ
      → List UtxoMeta
      → List UtxoInfo
      → List UtxoInfo
      → FeeRate
      → M (ShardSet S) StateShardError (Unit {0})
  unfolding remove_utxos_from_shards insert_rune_utxos add_btc_utxos sort_by
  update_shards_utxos indexes spent rune_utxos btc_utxos rate = do
    remove_utxos_from_shards indexes spent
    insert_rune_utxos indexes rune_utxos
    add_btc_utxos rate indexes (sort_by (λ a b. leb b.value a.value) btc_utxos)
