-- ===== src/Shards/Examples.antt =====
-- Two shards of two satoshi UTXOs, and a builder that spends one of these.
mod Splitting
mod Updating
mod Selecting
use saturn_crates.Prelude.{ℕ, ◌+◌, ◌*◌, true, List, [], ◌∷◌, ◌++◌, Option, none, some, length}
use saturn_crates.Transactions.Chain.{Node, zero_rune}
use saturn_crates.Transactions.Builder.State.{
  UtxoInfo, TransactionBuilder, unsigned_input, no_input,
}
use saturn_crates.Shards.Set.{Loader, StateShard, ShardSet}
use saturn_crates.Transactions.Runes.{RuneSet}
use saturn_crates.Collections.FixedArray.{FixedArray}
use saturn_crates.Collections.FixedOption.{FixedOption}
use saturn_crates.Shards.Derived.{AccountUtxos, state_shard}
use saturn_crates.Prelude.{replicate, ◌-◌}

abbrev pub coin : ℕ → ℕ → UtxoInfo
coin txid value = record {
  meta = record { txid = txid; vout = 0 };
  value = value;
  runes = record { items = zero_rune ∷ []; len = 0 };
  needs_consolidation = none;
}

-- an array of two places, and a slot for a rune UTXO
abbrev pub array : List UtxoInfo → FixedArray UtxoInfo
array coins = record {
  items = coins ++ replicate (2 - length coins) (coin 0 0);
  count = length coins;
}

abbrev pub slot : Option UtxoInfo → FixedOption UtxoInfo
slot none = record { item = coin 0 0; present = 0 }
slot (some rune) = record { item = rune; present = 1 }

abbrev pub loader : List UtxoInfo → Option UtxoInfo → Loader AccountUtxos
loader coins rune = record {
  shard = some (record { btc_utxos = array coins; rune_utxo = slot rune });
  is_writable = true;
}

-- the derived implementation for shards of two satoshi UTXOs
abbrev pub two : StateShard AccountUtxos
two = state_shard 2 (coin 0 0) (coin 0 0)

abbrev pub shards : ShardSet AccountUtxos
shards = record {
  loaders = loader (coin 1 9000 ∷ (coin 2 400 ∷ [])) none ∷ (loader (coin 3 2000 ∷ []) none ∷ []);
  selected = 0 ∷ (1 ∷ []);
}

-- a builder that spends the coin of 9000
abbrev pub spending : TransactionBuilder
spending = record {
  transaction = record {
    version = 2;
    lock_time = 0;
    input = unsigned_input (record { txid = 1; vout = 0 }) ∷ [];
    output = [];
  };
  tx_statuses = record { total_fee = 0; total_size = 0 };
  modified_accounts = record { items = none ∷ []; len = 0 };
  inputs_to_sign = record { items = no_input ∷ []; len = 1 };
  total_btc_input = 9000;
  total_rune_inputs = record { items = zero_rune ∷ []; len = 0 };
  runestone = record { edicts = []; pointer = none };
  total_btc_consolidation_input = 0;
  extra_tx_size_for_consolidation = 0;
}

abbrev pub node : Node
node = record {
  total_size = λ tx. 0;
  vsize = λ tx. 0;
  fee = λ rate size. rate * size;
  ratio = λ fee size. none;
  max_btc_tx_size = 3000;
  schnorr_signature_size = 64;
  compute_txid = λ tx. length tx.input + 100;
  btc = record { block = 0; tx = 0 };
}

abbrev pub laden : UtxoInfo
laden = record (coin 4 546) {
  runes = record { items = record { id = record { block = 1; tx = 1 }; amount = 5 } ∷ []; len = 1 };
}

abbrev pub rune_shards : ShardSet AccountUtxos
rune_shards = record shards { loaders = loader [] (some laden) ∷ (loader [] none ∷ []) }

abbrev pub no_runes : RuneSet
no_runes = record { items = zero_rune ∷ []; len = 0 }

abbrev pub rune_set : ℕ → RuneSet
rune_set amount = record {
  items = record { id = record { block = 1; tx = 1 }; amount = amount } ∷ [];
  len = 1;
}
