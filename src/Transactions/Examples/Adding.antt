-- ===== src/Transactions/Examples/Adding.antt =====
-- What the methods that add inputs do on the builder.
use saturn_crates.Prelude.{◌++◌, refl, [], ◌∷◌, some, arith}
use saturn_crates.Transactions.Builder.Tracking.{Spends}
use saturn_crates.Transactions.Builder.Inputs.{add_tx_input, insert_tx_input, add_user_tx_input}
use saturn_crates.Transactions.Builder.Appending.{add_tx_input-Spends, add_user_tx_input-Spends}
use saturn_crates.Transactions.Builder.Insertion.{insert_tx_input-Spends}
use saturn_crates.Transactions.Runes.{add_rune_input}
use saturn_crates.Transactions.Runes.Ledger.{Outcome, add_rune_input_lem}
use saturn_crates.Transactions.Builder.State.{
  push_input_to_sign, add_tx_status, push_input, add_btc, add_runes, insert_input,
  shift_inputs_to_sign, unsigned_input,
}
use saturn_crates.Transactions.Examples.{
  user_input, caps, gold, golden, coin, one_input, one_input-IsValid, status,
}

add_tx_input-Spends_example :
    Spends caps one_input coin status
      (one_input.transaction.input ++ (unsigned_input coin.meta ∷ []))
      ((some coin.meta, 60) ∷ [])
      (add_tx_input caps coin status 60 one_input).1
unfolding add_tx_input push_input_to_sign add_tx_status push_input add_btc add_runes
add_tx_input-Spends_example =
    add_tx_input-Spends caps one_input coin status 60 one_input-IsValid (omega arith) refl

add_user_tx_input-Spends_example :
    Spends caps one_input coin status
      (one_input.transaction.input ++ (user_input ∷ []))
      []
      (add_user_tx_input caps coin status user_input one_input).1
unfolding add_user_tx_input add_tx_status push_input add_btc add_runes
add_user_tx_input-Spends_example =
    add_user_tx_input-Spends caps one_input coin status user_input one_input-IsValid refl

insert_tx_input-Spends_example :
    Spends caps one_input coin status
      (unsigned_input coin.meta ∷ one_input.transaction.input)
      ((some coin.meta, 60) ∷ [])
      (insert_tx_input caps 0 coin status 60 one_input).1
unfolding insert_tx_input add_tx_status insert_input shift_inputs_to_sign push_input_to_sign add_btc
    add_runes
insert_tx_input-Spends_example =
    insert_tx_input-Spends caps one_input coin status 60 0 one_input-IsValid (omega arith)
      (omega arith) refl

add_rune_input_lem_example :
    Outcome 2 golden
      (record { id = gold; amount = 4 })
      gold
      (add_rune_input 2 golden (record { id = gold; amount = 4 }))
add_rune_input_lem_example =
    add_rune_input_lem 2 golden (record { id = gold; amount = 4 }) gold
      (record { sized = refl; bounded = omega arith })
