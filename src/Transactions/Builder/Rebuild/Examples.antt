-- ===== src/Transactions/Builder/Rebuild/Examples.antt =====
-- A transaction that spends two coins, and the builder of `new_with_transaction` for it.
use saturn_crates.Prelude.{ℕ, refl, List, [], ◌∷◌, none}
use saturn_crates.SafeMath.{safe_add}
use saturn_crates.Collections.FixedList
use saturn_crates.Collections.FixedSet
use saturn_crates.Transactions.Chain.{Transaction, RuneId, zero_rune}
use saturn_crates.Transactions.Chain.{confirmed}
use saturn_crates.Transactions.Mempool.{generate_mempool_info, count_from}
use saturn_crates.Transactions.Runes.{RuneSet, add_rune_input, add_rune_inputs}
use saturn_crates.Transactions.Builder.State.{
  UtxoInfo, Caps, TransactionBuilder, unsigned_input, no_input,
}
use saturn_crates.Transactions.Builder.Rebuild.{collect_runes, new_with_transaction}
use saturn_crates.Transactions.Builder.Rebuild.Held.{Rebuilt, new_with_transaction-Rebuilt}

abbrev caps : Caps
caps = record { max_modified_accounts = 1; max_inputs_to_sign = 2; max_runes = 2 }

abbrev gold : RuneId
gold = record { block = 840000; tx = 1 }

abbrev golden : ℕ → RuneSet
golden amount = record { items = record { id = gold; amount = amount } ∷ (zero_rune ∷ []); len = 1 }

abbrev coin : ℕ → UtxoInfo
coin txid = record {
  meta = record { txid = txid; vout = 0 };
  value = 10000;
  runes = golden txid;
  needs_consolidation = none;
}

abbrev spends_two : Transaction
spends_two = record {
  version = 2;
  lock_time = 0;
  input =
      unsigned_input (record { txid = 4; vout = 0 })
      ∷ (unsigned_input (record { txid = 3; vout = 0 }) ∷ []);
  output = [];
}

abbrev coins : List UtxoInfo
coins = coin 3 ∷ (coin 4 ∷ [])

abbrev rebuilt : TransactionBuilder
rebuilt = record {
  transaction = spends_two;
  tx_statuses = record { total_fee = 0; total_size = 0 };
  modified_accounts = record { items = none ∷ []; len = 0 };
  inputs_to_sign = record { items = no_input ∷ (no_input ∷ []); len = 0 };
  total_btc_input = 20000;
  total_rune_inputs = golden 7;
  runestone = record { edicts = []; pointer = none };
  total_btc_consolidation_input = 0;
  extra_tx_size_for_consolidation = 0;
}

new_with_transaction-Rebuilt_example : Rebuilt caps spends_two coins rebuilt
unfolding new_with_transaction collect_runes add_rune_inputs add_rune_input generate_mempool_info
    count_from FixedList.new FixedSet.new FixedSet.insert_or_modify FixedSet.contains
    FixedSet.insert safe_add
new_with_transaction-Rebuilt_example =
    new_with_transaction-Rebuilt caps (λ txid. confirmed) none spends_two coins rebuilt refl
