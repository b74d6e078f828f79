-- ===== src/Shards/Examples/Selecting.antt =====
-- How the shards of the example are selected and visited.
use mathlib.Core.Option
use saturn_crates.Prelude.{ℕ, ◌≡◌, refl, List, [], ◌∷◌, some, ok, map, any, ◌==◌, if◌then◌else◌}
use saturn_crates.Shards.Set.Laws.{Laws}
use saturn_crates.Shards.Derived.{AccountUtxos, state_shard}
use saturn_crates.Shards.Derived.Meets.{Holds, state_shard-Laws}
use saturn_crates.Shards.Select.{for_each_mut}
use saturn_crates.Shards.Select.Each.{shard_at, for_each_mut-EachDone}
use saturn_crates.Shards.Examples.{shards, coin, slot, laden}

state_shard-Laws_example :
    Laws (state_shard 2 (coin 0 0) (coin 0 0)) (Holds 2 (coin 0 0) (coin 0 0))
state_shard-Laws_example = state_shard-Laws 2 (coin 0 0) (coin 0 0)

-- gives the number of coins and puts a rune UTXO in the slot
abbrev visit : AccountUtxos → ℕ × AccountUtxos
visit s = (s.btc_utxos.count, record s { rune_utxo = slot (some laden) })

for_each_mut-EachDone_example :
    (outs : List ℕ) × ((for_each_mut visit shards).0 ≡ ok outs)
    × (map some outs ≡ map (λ i. Option.map (λ s. (visit s).0) (shard_at shards i)) (0 ∷ (1 ∷ [])))
    × (shard_at (for_each_mut visit shards).1 1 ≡ (
        if any (λ i. i == 1) (0 ∷ (1 ∷ []))
        then Option.map (λ s. (visit s).1) (shard_at shards 1)
        else shard_at shards 1))
for_each_mut-EachDone_example =
    for_each_mut-EachDone visit shards 1 (refl, (refl, tt)) ((refl, tt), ((refl, tt), tt))
