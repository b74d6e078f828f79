-- ===== src/Transactions/Builder/State.antt =====
-- The state of a TransactionBuilder, and the steps that its methods share.
--
-- The features `runes` and `utxo-consolidation` are on. An addition that the source writes with `+=`
-- wraps around, as it does in a release build.
use saturn_crates.Prelude.{
  ℕ, zero, suc, ◌+◌, ◌-◌, ◌%◌, ◌^◌, List, [], ◌∷◌, ◌++◌, Bool, Option, none, some, panicked, ◌==◌,
  leb, if◌then◌else◌, length, any, map_err,
}
use saturn_crates.Prelude.Exec.{M, return}
use saturn_crates.SafeMath.{u32_mod, u64_mod}
use saturn_crates.Collections.FixedList
use saturn_crates.Collections.FixedList.{FixedList, FixedListError}
use saturn_crates.Collections.FixedSet
use saturn_crates.Transactions.Chain.{
  OutPoint, UtxoMeta, TxIn, Transaction, InputToSign, MempoolInfo, TxStatus, pending, confirmed,
  RuneId, RuneAmount, zero_rune, FeeRate,
}
use saturn_crates.Transactions.Errors.{
  BitcoinTxError, input_to_sign_list_full, modified_account_list_full,
}
use saturn_crates.Transactions.Runes.{RuneSet, add_rune_inputs}

pub record UtxoInfo : Type 0 where
  pub meta : UtxoMeta
  pub value : ℕ
  pub runes : RuneSet
  pub needs_consolidation : Option FeeRate

-- what the builder reads of an AccountInfo
pub record AccountInfo : Type 0 where
  pub key : ℕ
  pub utxo : UtxoMeta
  pub is_writable : Bool

pub record Edict : Type 0 where
  pub id : RuneId
  pub amount : ℕ
  pub output : ℕ

pub record Runestone : Type 0 where
  pub edicts : List Edict
  pub pointer : Option ℕ

-- the const parameters, and the capacity of the rune set
pub record Caps : Type 0 where
  pub max_modified_accounts : ℕ
  pub max_inputs_to_sign : ℕ
  pub max_runes : ℕ

-- A modified account is `none` only in a slot of the array that is not in use.
pub record TransactionBuilder : Type 0 where
  pub transaction : Transaction
  pub tx_statuses : MempoolInfo
  pub modified_accounts : FixedList (Option AccountInfo)
  pub inputs_to_sign : FixedList InputToSign
  pub total_btc_input : ℕ
  pub total_rune_inputs : RuneSet
  pub runestone : Runestone
  pub total_btc_consolidation_input : ℕ
  pub extra_tx_size_for_consolidation : ℕ

abbrev pub dust_limit : ℕ
dust_limit = 546

abbrev pub Build : Type 0 → Type 0
Build A = M TransactionBuilder BitcoinTxError A

abbrev pub no_input : InputToSign
no_input = record { index = 0; signer = 0 }

unfoldable pub new : Caps → TransactionBuilder
unfolding FixedList.new FixedSet.new
new c = record {
  transaction = record { version = 2; lock_time = 0; input = []; output = [] };
  tx_statuses = record { total_fee = 0; total_size = 0 };
  modified_accounts = FixedList.new c.max_modified_accounts none;
  inputs_to_sign = FixedList.new c.max_inputs_to_sign no_input;
  total_btc_input = 0;
  total_rune_inputs = FixedSet.new c.max_runes zero_rune;
  runestone = record { edicts = []; pointer = none };
  total_btc_consolidation_input = 0;
  extra_tx_size_for_consolidation = 0;
}

-- the input that spends an outpoint, not yet signed
abbrev pub unsigned_input : OutPoint → TxIn
unsigned_input outpoint = record {
  previous_output = outpoint;
  script_sig = [];
  sequence = 2 ^ 32 - 1;
  witness = [];
}

-- `Vec::insert`, which panics past the end
abbrev pub insert_at {ℓ} : {A : Type ℓ} → ℕ → A → List A → List A
insert_at zero x xs = x ∷ xs
insert_at (suc i) x [] = x ∷ []
insert_at (suc i) x (y ∷ ys) = y ∷ insert_at i x ys

abbrev pub with_input : TransactionBuilder → List TxIn → TransactionBuilder
with_input b inputs = record b { transaction = record b.transaction { input = inputs } }

unfoldable pub push_input_to_sign : Caps → InputToSign → Build (Unit {0})
unfolding FixedList.push
push_input_to_sign c i b =
    let (r, l) = FixedList.push c.max_inputs_to_sign b.inputs_to_sign i in
    (map_err (λ _. input_to_sign_list_full) r, record b { inputs_to_sign = l })

unfoldable pub push_modified_account : Caps → AccountInfo → Build (Unit {0})
unfolding FixedList.push
push_modified_account c a b =
    let (r, l) = FixedList.push c.max_modified_accounts b.modified_accounts (some a) in
    (map_err (λ _. modified_account_list_full) r, record b { modified_accounts = l })

unfoldable pub push_input : TxIn → Build (Unit {0})
push_input i b = return tt (with_input b (b.transaction.input ++ (i ∷ [])))

unfoldable pub insert_input : ℕ → TxIn → Build (Unit {0})
insert_input index i b =
    if leb index (length b.transaction.input)
    then return tt (with_input b (insert_at index i b.transaction.input))
    else (panicked, b)

-- `if input.index >= tx_index_u32 { input.index += 1 }`
abbrev pub shift : ℕ → InputToSign → InputToSign
shift index i = if leb index i.index then record i { index = (i.index + 1) % u32_mod } else i

unfoldable pub shift_inputs_to_sign : ℕ → Build (Unit {0})
unfolding FixedList.iter_mut
shift_inputs_to_sign index b =
    return tt (record b { inputs_to_sign = FixedList.iter_mut (shift index) b.inputs_to_sign })

unfoldable pub add_btc : ℕ → Build (Unit {0})
add_btc value b = return tt (record b { total_btc_input = (b.total_btc_input + value) % u64_mod })

-- A transaction whose output is spent already has its mempool entry counted.
unfoldable pub add_tx_status : UtxoInfo → TxStatus → Build (Unit {0})
add_tx_status utxo confirmed b = return tt b
add_tx_status utxo (pending info) b =
    if any (λ i. i.previous_output.txid == utxo.meta.txid) b.transaction.input
    then return tt b
    else return tt (record b {
      tx_statuses = record {
        total_fee = (b.tx_statuses.total_fee + info.total_fee) % u64_mod;
        total_size = (b.tx_statuses.total_size + info.total_size) % u64_mod;
      };
    })

-- `for rune in utxo.runes.as_slice() { self.add_rune_input(*rune)?; }`
unfoldable pub add_runes : Caps → List RuneAmount → Build (Unit {0})
unfolding add_rune_inputs
add_runes c runes b =
    let (r, s) = add_rune_inputs c.max_runes runes b.total_rune_inputs in
    (r, record b { total_rune_inputs = s })
