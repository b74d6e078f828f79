-- ===== src/Transactions/Fetch.antt =====
-- get_runes of saturn-bitcoin-transactions/src/arch.rs and `TryFrom<&UtxoMeta>` of
-- saturn-bitcoin-transactions/src/utxo_info.rs, with runes: what the runtime holds of an output.
--
-- The calls of the runtime are parameters. The errors are the numbers in ProgramError::Custom; `size` is the
-- capacity of the rune set.
pub mod Runes
mod Examples
use saturn_crates.Prelude.{ℕ, List, [], ◌∷◌, Option, none, some, Result, ok, err, panicked}
use saturn_crates.Prelude.Exec.{M, return, ok_or, try_}
use saturn_crates.Collections.FixedSet
use saturn_crates.Collections.FixedSet.{FixedSet}
use saturn_crates.Transactions.Chain.{UtxoMeta, RuneAmount, rune_eq, zero_rune}
use saturn_crates.Transactions.Errors.{
  BitcoinTxError, rune_output_not_found, more_runes_in_utxo_than_max, transaction_not_found,
}
use saturn_crates.Transactions.Runes.{RuneSet}
use saturn_crates.Transactions.Builder.State.{UtxoInfo}

-- `insert(rune).map_err(..)?`, and what follows it
abbrev pub inserted {ℓ} :
    {E : Type ℓ}
    → Result E (Unit {0})
    → Result BitcoinTxError RuneSet
    → Result BitcoinTxError RuneSet
inserted (ok _) later = later
inserted (err _) later = err more_runes_in_utxo_than_max
inserted panicked later = panicked

-- the loop over the runes
unfoldable pub insert_runes : ℕ → List RuneAmount → RuneSet → Result BitcoinTxError RuneSet
unfolding FixedSet.insert
insert_runes size [] s = ok s
insert_runes size (rune ∷ runes) s =
    let (r, s') = FixedSet.insert rune_eq size s rune in
    let later = insert_runes size runes s' in inserted r later

module _ (get_runes_from_output : ℕ → ℕ → Option (List RuneAmount)) where
  unfoldable pub get_runes : ℕ → UtxoMeta → Result BitcoinTxError RuneSet
  unfolding insert_runes FixedSet.new
  get_runes size utxo =
      try_ (ok_or rune_output_not_found (get_runes_from_output utxo.txid utxo.vout))
        λ runes. insert_runes size runes (FixedSet.new size zero_rune)

  module _ (get_bitcoin_tx_output_value : ℕ → ℕ → Option ℕ) where
    unfoldable pub try_from : ℕ → UtxoMeta → Result BitcoinTxError UtxoInfo
    unfolding get_runes
    try_from size value = try_ (get_runes size value) λ runes.
        try_ (ok_or transaction_not_found (get_bitcoin_tx_output_value value.txid value.vout))
          λ ui_value.
            ok
              (record { meta = value; value = ui_value; runes = runes; needs_consolidation = none })
