-- ===== src/Transactions/Examples.antt =====
-- A builder with one input, and what its methods do on it.
mod Adding
mod Paying
mod Reserving
use saturn_crates.Prelude.{
  ◌/◌, ap, sym, ◌∙◌, length, length-append, ◌+◌, ◌*◌, refl, List, [], ◌∷◌, none, some, arith,
}
use saturn_crates.Transactions.Chain.{
  TxIn, Transaction, InputToSign, MempoolInfo, TxStatus, pending, RuneId, zero_rune, Node,
}
use saturn_crates.Transactions.Runes.{RuneSet}
use saturn_crates.Transactions.Builder.State.{
  UtxoInfo, Caps, TransactionBuilder, unsigned_input, no_input,
}
use saturn_crates.Transactions.Builder.Tracking.{IsValid}
use saturn_crates.Collections.FixedList.{FixedList}
use saturn_crates.Transactions.Fees.Adjust.{SizeIgnoresValues}
use saturn_crates.Transactions.Reserve.{Draft}

abbrev pub caps : Caps
caps = record { max_modified_accounts = 1; max_inputs_to_sign = 2; max_runes = 2 }

abbrev pub gold : RuneId
gold = record { block = 840000; tx = 1 }

abbrev pub golden : RuneSet
golden = record { items = record { id = gold; amount = 5 } ∷ (zero_rune ∷ []); len = 1 }

abbrev pub no_runes : RuneSet
no_runes = record { items = zero_rune ∷ (zero_rune ∷ []); len = 0 }

abbrev pub coin : UtxoInfo
coin = record {
  meta = record { txid = 7; vout = 0 };
  value = 10000;
  runes = golden;
  needs_consolidation = none;
}

abbrev pub old_coin : UtxoInfo
old_coin = record {
  meta = record { txid = 8; vout = 1 };
  value = 3000;
  runes = no_runes;
  needs_consolidation = some 9;
}

abbrev pub one_input : TransactionBuilder
one_input = record {
  transaction = record {
    version = 2;
    lock_time = 0;
    input = unsigned_input (record { txid = 3; vout = 2 }) ∷ [];
    output = [];
  };
  tx_statuses = record { total_fee = 0; total_size = 0 };
  modified_accounts = record { items = none ∷ []; len = 0 };
  inputs_to_sign = record { items = record { index = 0; signer = 50 } ∷ (no_input ∷ []); len = 1 };
  total_btc_input = 2000;
  total_rune_inputs = no_runes;
  runestone = record { edicts = []; pointer = none };
  total_btc_consolidation_input = 0;
  extra_tx_size_for_consolidation = 0;
}

pub one_input-IsValid : IsValid caps one_input
one_input-IsValid = record {
  signs = record { sized = refl; bounded = omega arith };
  accounts = record { sized = refl; bounded = omega arith };
  runes = record { sized = refl; bounded = omega arith };
  range = (omega arith, tt);
}

abbrev pub status : TxStatus
status = pending (record { total_fee = 30; total_size = 200 })

-- a node whose transactions have their input and output bytes, and whose rates are whole numbers
abbrev pub node : Node
node = record {
  total_size = λ tx. 10 + 41 * length tx.input + 43 * length tx.output;
  vsize = λ tx. 10 + 41 * length tx.input + 43 * length tx.output;
  fee = λ rate size. rate * size;
  ratio = λ fee size. some (fee / size);
  max_btc_tx_size = 3000;
  schnorr_signature_size = 64;
  compute_txid = λ tx. length tx.input + 100;
  btc = record { block = 0; tx = 0 };
}

pub node-SizeIgnoresValues : SizeIgnoresValues node
node-SizeIgnoresValues tx outputs o value =
    ap (λ k. 10 + 41 * length tx.input + 43 * k)
      (length-append outputs (record o { value = value } ∷ [])
        ∙ sym (length-append outputs (o ∷ [])))

abbrev pub payment : Transaction
payment = record one_input.transaction {
  output = record { value = 1000; script_pubkey = 1 ∷ [] } ∷ [];
}

abbrev pub calm : MempoolInfo
calm = record { total_fee = 0; total_size = 0 }

abbrev pub coins : List UtxoInfo
coins = old_coin ∷ (coin ∷ [])

abbrev pub draft : Draft (FixedList InputToSign)
draft = record { transaction = payment; inputs_to_sign = one_input.inputs_to_sign }

abbrev pub user_input : TxIn
user_input = unsigned_input coin.meta
