-- ===== src/Shards/Derived.antt =====
-- What `derive(ShardAccount)` of saturn-account-shards-derive writes for a struct: the implementation of
-- StateShard (expand/state_shard.rs) over a fixed array and a fixed option.
--
-- The struct's other fields, which no method reads, are left out.
pub mod Meets
use saturn_crates.Prelude.{ℕ}
use saturn_crates.Collections.FixedArray
use saturn_crates.Collections.FixedArray.{FixedArray}
use saturn_crates.Collections.FixedOption
use saturn_crates.Collections.FixedOption.{FixedOption}
use saturn_crates.Transactions.Builder.State.{UtxoInfo}
use saturn_crates.Shards.Set.{StateShard}

pub record AccountUtxos : Type 0 where
  pub btc_utxos : FixedArray UtxoInfo
  pub rune_utxo : FixedOption UtxoInfo

-- `size` is the array's capacity, and `default` and `zeroed` are its item type's values.
unfoldable pub state_shard : ℕ → UtxoInfo → UtxoInfo → StateShard AccountUtxos
unfolding FixedArray.retain FixedArray.add FixedOption.as_ref FixedOption.none FixedOption.some
state_shard size default zeroed = record {
  btc_utxos = λ s. FixedArray.as_slice s.btc_utxos;
  btc_utxos_retain = λ f s. record s { btc_utxos = FixedArray.retain default f s.btc_utxos };
  add_btc_utxo = λ utxo s.
      let (r, btc_utxos) = FixedArray.add size s.btc_utxos utxo in
      (r, record s { btc_utxos = btc_utxos });
  btc_utxos_len = λ s. s.btc_utxos.count;
  btc_utxos_max_len = λ s. size;
  rune_utxo = λ s. FixedOption.as_ref s.rune_utxo;
  clear_rune_utxo = λ s. record s { rune_utxo = FixedOption.none zeroed };
  set_rune_utxo = λ utxo s. record s { rune_utxo = FixedOption.some utxo };
}
