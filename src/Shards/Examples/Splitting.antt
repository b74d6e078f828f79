-- ===== src/Shards/Examples/Splitting.antt =====
-- How the shards of the example share satoshis and runes.
use saturn_crates.Prelude.{ℕ, ◌≤◌, ◌<◌, ◌≡◌, refl, List, [], ◌∷◌, some, ok, arith, leb, All, ◌⊎◌}
use saturn_crates.Prelude.Sort.{sum_by, IsSorted}
use saturn_crates.SafeMath.{safe_add, safe_sub, safe_div}
use saturn_crates.Transactions.Builder.State.{UtxoInfo, dust_limit}
use saturn_crates.Shards.Set.{load, with_ref}
use saturn_crates.Shards.Split.{redistribute_sub_dust_values, join_dust, spread}
use saturn_crates.Shards.Split.Dust.{Joined, redistribute_sub_dust_values_lem}
use saturn_crates.Shards.Settle.{
  spent_value, spent_total, compute_unsettled_btc_in_shards, balance_amount_across_shards,
  outputs_for, redistribute_remaining_btc_to_shards,
}
use saturn_crates.Shards.Settle.Outputs.{redistribute_remaining_btc_to_shards_lem}
use saturn_crates.Prelude.Sort.{place, sort_by}
use saturn_crates.Collections.FixedSet
use saturn_crates.Shards.Split.{balance_amount, total_current, assign, needs, scale}
use saturn_crates.Shards.Settle.{read_amount}
use saturn_crates.Shards.Modified.{split_runes}
use saturn_crates.Shards.Modified.Partition.{Parted, split_runes_lem}
use saturn_crates.Shards.RuneSettle.{
  deposit_rune, deposit_runes, held_runes, subtract_removed, compute_unsettled_rune_in_shards,
  add_allocs, plan_runes, plan_rune_distribution_among_shards, biggest_first,
  redistribute_remaining_rune_to_shards,
}
use saturn_crates.Shards.RuneSettle.Emitted.{
  Emitted, edicts_after_first, redistribute_remaining_rune_to_shards-Emitted,
}
use saturn_crates.Collections.FixedOption
use saturn_crates.Collections.FixedOption.{FixedOption}
use saturn_crates.Shards.Derived.{state_shard}
use saturn_crates.Shards.Examples.{
  two, shards, spending, node, coin, laden, rune_shards, no_runes, rune_set,
}

redistribute_sub_dust_values_lem_example :
    (ys : List ℕ) × (redistribute_sub_dust_values 546 (100 ∷ (700 ∷ (60 ∷ []))) ≡ ok ys)
    × Joined 546 860 ys
redistribute_sub_dust_values_lem_example =
    redistribute_sub_dust_values_lem 546 (100 ∷ (700 ∷ (60 ∷ []))) (omega arith)

dust_joined : redistribute_sub_dust_values 546 (100 ∷ (700 ∷ (60 ∷ []))) ≡ ok (860 ∷ [])
unfolding state_shard FixedOption.as_ref redistribute_sub_dust_values join_dust spread safe_add
    safe_div
dust_joined = refl

redistribute_remaining_btc_to_shards_lem_example :
    (amounts : List ℕ) × (redistribute_remaining_btc_to_shards two node 1 shards 4000
        (5 ∷ [])
        spending
      ≡ (
        ok amounts,
        record spending {
          transaction = record spending.transaction { output = outputs_for (5 ∷ []) amounts };
        },
      ))
    × IsSorted (λ x y. leb y x) amounts
    × All (λ a. dust_limit ≤ a) amounts
    × ((sum_by (λ o. o.value) (outputs_for (5 ∷ []) amounts) ≡ 5000)
        ⊎ ((amounts ≡ []) × (5000 < dust_limit)))
unfolding state_shard FixedOption.as_ref compute_unsettled_btc_in_shards spent_total spent_value
    with_ref load safe_add safe_sub
redistribute_remaining_btc_to_shards_lem_example =
    redistribute_remaining_btc_to_shards_lem two node 1 spending shards 4000 (5 ∷ []) 5000 refl
      (omega arith) (omega arith, (omega arith, tt)) (omega arith) (omega arith)

split_runes_lem_example :
    (runes : List UtxoInfo) × (left : List UtxoInfo) × (split_runes 3
        (laden ∷ (coin 5 1000 ∷ (coin 6 2000 ∷ [])))
      ≡ ok (runes, left))
    × Parted (laden ∷ (coin 5 1000 ∷ (coin 6 2000 ∷ []))) runes left
split_runes_lem_example = split_runes_lem (laden ∷ (coin 5 1000 ∷ (coin 6 2000 ∷ [])))

redistribute_remaining_rune_to_shards-Emitted_example :
    IsSorted biggest_first (rune_set 5 ∷ (no_runes ∷ []))
    × Emitted
        (5 ∷ [])
        2
        (edicts_after_first 0 (rune_set 5 ∷ (no_runes ∷ [])))
        (record spending { runestone = record spending.runestone { pointer = some 0 } })
        (redistribute_remaining_rune_to_shards two node 1 rune_shards no_runes (5 ∷ []) spending).1
unfolding state_shard FixedOption.as_ref redistribute_remaining_rune_to_shards
    compute_unsettled_rune_in_shards plan_rune_distribution_among_shards plan_runes add_allocs
    held_runes subtract_removed deposit_runes deposit_rune with_ref load FixedSet.new
    FixedSet.insert_or_modify FixedSet.contains FixedSet.insert balance_amount_across_shards
    balance_amount read_amount total_current assign needs spread scale safe_add safe_sub safe_div
    sort_by place
redistribute_remaining_rune_to_shards-Emitted_example =
    redistribute_remaining_rune_to_shards-Emitted two node 1 rune_shards no_runes (5 ∷ []) spending
      (rune_set 5 ∷ (no_runes ∷ [])) refl
