-- ===== src/Shards/Examples/Updating.antt =====
-- How the shards of the example are updated.
use saturn_crates.Prelude.{
  ℕ, ◌≡◌, refl, List, [], ◌∷◌, ◌++◌, Option, none, some, ok, arith, map, All,
}
use saturn_crates.Transactions.Chain.{UtxoMeta}
use saturn_crates.Transactions.Builder.State.{UtxoInfo}
use saturn_crates.Shards.Update.{
  update_shards_utxos, insert_rune_utxos, add_btc_utxos, add_btc, remove_utxos_from_shards,
  remove_utxo,
}
use saturn_crates.Shards.Update.Without.{Cleared}
use saturn_crates.Shards.Update.Spent.{remove_utxos_from_shards-Cleared}
use saturn_crates.Shards.Set.Laws.{Laws, AllSound}
use saturn_crates.Shards.Update.Inserted.{all_btc_metas, update_shards_utxos-Perm}
use mathlib.Core.List.{Perm}
use saturn_crates.Shards.Set.{with_mut, write, load_mut, load, with_ref}
use saturn_crates.Prelude.Sort.{place, sort_by}
use saturn_crates.SafeMath.{u64_mod}
use saturn_crates.Shards.Update.{select_best_shard_to_add_btc_to, best_from}
use saturn_crates.Shards.Update.Best.{Found, select_best_shard_to_add_btc_to-Found}
use saturn_crates.Collections.FixedArray
use saturn_crates.Collections.FixedArray.{FixedArray}
use saturn_crates.Collections.FixedArray.Stands.{Stands}
use saturn_crates.Collections.FixedOption
use saturn_crates.Collections.FixedOption.{FixedOption}
use saturn_crates.Shards.Derived.{state_shard}
use saturn_crates.Shards.Derived.Meets.{Holds, state_shard-Laws}
use saturn_crates.Prelude.{◌-◌}
use saturn_crates.Shards.Examples.{array, two, shards, coin, laden}

select_best_shard_to_add_btc_to-Found_example :
    (r : Option ℕ) × (select_best_shard_to_add_btc_to two shards (0 ∷ (1 ∷ [])) ≡ ok r)
    × Found two shards (0 ∷ (1 ∷ [])) none (u64_mod - 1) r
select_best_shard_to_add_btc_to-Found_example =
    select_best_shard_to_add_btc_to-Found two shards (0 ∷ (1 ∷ [])) (omega arith, (omega arith, tt))

-- The first shard is full.
second_is_best : select_best_shard_to_add_btc_to two shards (0 ∷ (1 ∷ [])) ≡ ok (some 1)
unfolding state_shard FixedOption.as_ref select_best_shard_to_add_btc_to best_from with_ref load
second_is_best = refl

two-Laws : Laws two (Holds 2 (coin 0 0) (coin 0 0))
two-Laws = state_shard-Laws 2 (coin 0 0) (coin 0 0)

abbrev StandsFor : List UtxoInfo → Type 0
StandsFor coins = Stands 2 (coin 0 0) (array coins) coins

first : StandsFor (coin 1 9000 ∷ (coin 2 400 ∷ []))
first = record { slots = refl; counted = refl; bounded = omega arith; small = omega arith }

second : StandsFor (coin 3 2000 ∷ [])
second = record { slots = refl; counted = refl; bounded = omega arith; small = omega arith }

shards-AllSound : AllSound (Holds 2 (coin 0 0) (coin 0 0)) shards
shards-AllSound = ((coin 1 9000 ∷ (coin 2 400 ∷ []), first), ((coin 3 2000 ∷ [], second), tt))

abbrev spent_coins : List UtxoMeta
spent_coins = record { txid = 2; vout = 0 } ∷ (record { txid = 3; vout = 0 } ∷ [])

remove_utxos_from_shards-Cleared_example :
    All
      (λ meta.
        All
          (Cleared two (remove_utxos_from_shards two (0 ∷ (1 ∷ [])) spent_coins shards).1 meta)
          (0 ∷ (1 ∷ [])))
      spent_coins
unfolding state_shard remove_utxos_from_shards remove_utxo with_mut write load_mut load
    FixedOption.as_ref FixedOption.none FixedArray.retain
remove_utxos_from_shards-Cleared_example =
    remove_utxos_from_shards-Cleared two (Holds 2 (coin 0 0) (coin 0 0)) two-Laws (0 ∷ (1 ∷ []))
      spent_coins shards shards-AllSound refl

update_shards_utxos-Perm_example :
    Perm
      (all_btc_metas two
        (update_shards_utxos two
          (0 ∷ (1 ∷ []))
          spent_coins
          (laden ∷ [])
          (coin 7 800 ∷ [])
          3
          shards).1)
      (map (λ u. u.meta) (coin 7 800 ∷ [])
        ++ all_btc_metas two (remove_utxos_from_shards two (0 ∷ (1 ∷ [])) spent_coins shards).1)
unfolding state_shard update_shards_utxos remove_utxos_from_shards remove_utxo insert_rune_utxos
    add_btc_utxos add_btc select_best_shard_to_add_btc_to best_from with_ref with_mut write load_mut
    load sort_by place FixedOption.as_ref FixedOption.none FixedOption.some FixedArray.retain
    FixedArray.add
update_shards_utxos-Perm_example =
    update_shards_utxos-Perm two (Holds 2 (coin 0 0) (coin 0 0)) two-Laws (0 ∷ (1 ∷ [])) spent_coins
      (laden ∷ []) (coin 7 800 ∷ []) 3 shards shards-AllSound refl
