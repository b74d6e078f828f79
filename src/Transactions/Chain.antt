-- ===== src/Transactions/Chain.antt =====
-- The data that the program shares with the crates bitcoin, arch_program and mempool_oracle_sdk:
-- the public fields of their types, and nothing of their code.
--
-- A transaction id is the number that its 32 bytes spell, whichever way round they are stored, so
-- an OutPoint and the UtxoMeta made of it hold the same pair. A key is a number as well, and a
-- script is its bytes. The crates' functions on transactions, and what is computed with the `f64`
-- of a fee rate, are the fields of `Node`.
use saturn_crates.Prelude.{ℕ, ◌≡◌, ◌↔◌, List, [], ◌∷◌, Bool, true, false, ◌&&◌, Option, ◌==◌, arith}

pub record OutPoint : Type 0 where
  pub txid : ℕ
  pub vout : ℕ

abbrev pub UtxoMeta : Type 0
UtxoMeta = OutPoint

abbrev pub outpoint_eq : OutPoint → OutPoint → Bool
outpoint_eq a b = (a.txid == b.txid) && (a.vout == b.vout)

pub outpoint_eq_iff : (a b : OutPoint) → (outpoint_eq a b ≡ true) ↔ (a ≡ b)
outpoint_eq_iff a b = ground arith

abbrev pub Script : Type 0
Script = List ℕ

abbrev pub script_eq : Script → Script → Bool
script_eq [] [] = true
script_eq (x ∷ xs) (y ∷ ys) = (x == y) && script_eq xs ys
script_eq _ _ = false

pub record TxIn : Type 0 where
  pub previous_output : OutPoint
  pub script_sig : Script
  pub sequence : ℕ
  pub witness : List Script

pub record TxOut : Type 0 where
  pub value : ℕ
  pub script_pubkey : Script

pub record Transaction : Type 0 where
  pub version : ℕ
  pub lock_time : ℕ
  pub input : List TxIn
  pub output : List TxOut

pub record InputToSign : Type 0 where
  pub index : ℕ
  pub signer : ℕ

pub record MempoolInfo : Type 0 where
  pub total_fee : ℕ
  pub total_size : ℕ

pub data TxStatus : Type 0 where
  pending : MempoolInfo → TxStatus
  confirmed : TxStatus

pub record RuneId : Type 0 where
  pub block : ℕ
  pub tx : ℕ

abbrev pub id_eq : RuneId → RuneId → Bool
id_eq a b = (a.block == b.block) && (a.tx == b.tx)

pub id_eq_iff : (a b : RuneId) → (id_eq a b ≡ true) ↔ (a ≡ b)
id_eq_iff a b = ground arith

pub record RuneAmount : Type 0 where
  pub id : RuneId
  pub amount : ℕ

-- `PartialEq` of RuneAmount compares the ids alone
abbrev pub rune_eq : RuneAmount → RuneAmount → Bool
rune_eq a b = id_eq a.id b.id

abbrev pub zero_rune : RuneAmount
zero_rune = record { id = record { block = 0; tx = 0 }; amount = 0 }

-- A fee rate is the bit pattern of its `f64`: for the non-negative finite numbers, the only ones that
-- `TryFrom<f64>` lets through, the patterns are ordered as the numbers. `TryFrom<&[u8]>` lets all
-- through; what is negative or NaN is not modelled.
abbrev pub FeeRate : Type 0
FeeRate = ℕ

pub record Node : Type 0 where
  -- `Transaction::total_size` and `Transaction::vsize`
  pub total_size : Transaction → ℕ
  pub vsize : Transaction → ℕ
  -- `FeeRate::fee`, in satoshis
  pub fee : FeeRate → ℕ → ℕ
  -- `FeeRate::try_from(fee as f64 / size as f64)`
  pub ratio : ℕ → ℕ → Option FeeRate
  -- `MAX_BTC_TX_SIZE` and `SCHNORR_SIGNATURE_SIZE`
  pub max_btc_tx_size : ℕ
  pub schnorr_signature_size : ℕ
  -- `Transaction::compute_txid`
  pub compute_txid : Transaction → ℕ
  -- `RuneId::BTC`
  pub btc : RuneId
