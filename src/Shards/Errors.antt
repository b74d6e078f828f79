-- ===== src/Shards/Errors.antt =====
-- saturn-account-shards/src/error.rs.
use saturn_crates.Prelude.{Result, err, panicked}
use saturn_crates.Collections.FixedSet.{FixedSetError, full, duplicate}

pub data StateShardError : Type 0 where
  not_enough_rune_in_shards : StateShardError
  output_edict_is_not_in_transaction : StateShardError
  math_error_in_balance_amount_across_shards : StateShardError
  too_many_runes_in_utxo : StateShardError
  rune_amount_addition_overflow : StateShardError
  shards_are_full_of_btc_utxos : StateShardError
  removing_more_runes_than_present_in_shards : StateShardError
  missing_pointer_in_runestone : StateShardError
  runestone_pointer_is_not_in_transaction : StateShardError

-- `From<FixedSetError>`, which panics on a duplicate
abbrev pub of_set_error : FixedSetError → Result StateShardError (Unit {0})
of_set_error full = err too_many_runes_in_utxo
of_set_error duplicate = panicked
