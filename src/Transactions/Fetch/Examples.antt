-- ===== src/Transactions/Fetch/Examples.antt =====
-- What is read of an output with two runes.
use saturn_crates.Prelude.{
  ℕ, ◌≡◌, refl, List, [], ◌∷◌, Option, none, some, ok, err, if◌then◌else◌, ◌==◌,
}
use saturn_crates.Collections.FixedSet
use saturn_crates.Transactions.Chain.{UtxoMeta, RuneAmount}
use saturn_crates.Transactions.Errors.{
  more_runes_in_utxo_than_max, transaction_not_found, rune_output_not_found,
}
use saturn_crates.Transactions.Fetch.{insert_runes, get_runes, try_from}
use saturn_crates.Transactions.Fetch.Runes.{WholeOrNone, get_runes-WholeOrNone}

abbrev amount : ℕ → ℕ → RuneAmount
amount tx n = record { id = record { block = 840000; tx = tx }; amount = n }

abbrev runes : List RuneAmount
runes = amount 1 5 ∷ (amount 2 6 ∷ [])

abbrev held : ℕ → ℕ → Option (List RuneAmount)
held txid vout = if vout == 0 then some runes else none

abbrev first_output : UtxoMeta
first_output = record { txid = 7; vout = 0 }

get_runes-WholeOrNone_example : WholeOrNone 3 [] runes (get_runes held 3 first_output)
get_runes-WholeOrNone_example = get_runes-WholeOrNone held 3 first_output runes refl

test_fetched :
    try_from held (λ txid vout. some 546) 2 first_output
    ≡ ok (record {
      meta = first_output;
      value = 546;
      runes = record { items = runes; len = 2 };
      needs_consolidation = none;
    })
unfolding try_from get_runes insert_runes FixedSet.new FixedSet.insert
test_fetched = refl

test_too_many_runes :
    try_from held (λ txid vout. some 546) 1 first_output ≡ err more_runes_in_utxo_than_max
unfolding try_from get_runes insert_runes FixedSet.new FixedSet.insert
test_too_many_runes = refl

test_no_value : try_from held (λ txid vout. none) 2 first_output ≡ err transaction_not_found
unfolding try_from get_runes insert_runes FixedSet.new FixedSet.insert
test_no_value = refl

test_no_runes : get_runes held 2 (record { txid = 7; vout = 1 }) ≡ err rune_output_not_found
unfolding get_runes
test_no_runes = refl
