-- ===== src/Transactions/Errors.antt =====
-- saturn-bitcoin-transactions/src/error.rs.
use saturn_crates.Prelude.{Result, err, panicked}
use saturn_crates.SafeMath.{MathError}
use saturn_crates.Collections.FixedSet.{FixedSetError, full, duplicate}

pub data BitcoinTxError : Type 0 where
  not_enough_amount_to_cover_fees : BitcoinTxError
  transaction_too_large : BitcoinTxError
  calc_overflow : BitcoinTxError
  insufficient_input_amount : BitcoinTxError
  invalid_fee_rate_too_low : BitcoinTxError
  utxo_not_found_in_user_utxos : BitcoinTxError
  transaction_input_length_must_match_user_utxos_length : BitcoinTxError
  transaction_not_found : BitcoinTxError
  rune_output_not_found : BitcoinTxError
  more_runes_in_utxo_than_max : BitcoinTxError
  not_enough_btc_in_pool : BitcoinTxError
  runestone_decipher_error : BitcoinTxError
  rune_input_list_full : BitcoinTxError
  rune_addition_overflow : BitcoinTxError
  input_to_sign_list_full : BitcoinTxError
  modified_account_list_full : BitcoinTxError

-- `From<FixedSetError>`, which panics on a duplicate
abbrev pub of_set_error : FixedSetError → Result BitcoinTxError (Unit {0})
of_set_error full = err rune_input_list_full
of_set_error duplicate = panicked

-- `From<MathError>`
abbrev pub of_math_error : MathError → BitcoinTxError
of_math_error e = calc_overflow
