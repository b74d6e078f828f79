-- ===== src/Transactions/Builder/Frames.antt =====
-- What the shared steps of the builder's methods change, and what they leave alone.
use saturn_crates.Prelude.{
  ℕ, zero, suc, ◌≤◌, ◌<◌, ◌≡◌, refl, ap, List, [], ◌∷◌, ◌++◌, some, ok, arith, length, get_elem?,
}
use saturn_crates.Collections.FixedList.{FixedList}
use saturn_crates.Transactions.Chain.{InputToSign, MempoolInfo, TxStatus, pending, confirmed}
use saturn_crates.Transactions.Builder.State.{
  TransactionBuilder, UtxoInfo, add_tx_status, insert_at,
}

-- `add_tx_status` never fails, and changes the statuses alone.
abbrev pub statuses_after : UtxoInfo → TxStatus → TransactionBuilder → MempoolInfo
statuses_after utxo status b = (add_tx_status utxo status b).1.tx_statuses

pub add_tx_status_frame :
    (utxo : UtxoInfo) (status : TxStatus) (b : TransactionBuilder)
    → add_tx_status utxo status b ≡ (ok tt, record b { tx_statuses = statuses_after utxo status b })
unfolding add_tx_status
add_tx_status_frame utxo confirmed b = refl
add_tx_status_frame utxo (pending info) b = ground arith

-- The statuses do not depend on who signs.
pub statuses_after-inputs_to_sign :
    (utxo : UtxoInfo) (status : TxStatus) (b : TransactionBuilder) (l : FixedList InputToSign)
    → statuses_after utxo status (record b { inputs_to_sign = l }) ≡ statuses_after utxo status b
unfolding add_tx_status
statuses_after-inputs_to_sign utxo confirmed b l = refl
statuses_after-inputs_to_sign utxo (pending info) b l = ground arith

module _ {ℓ} {A : Type ℓ} where
  pub length-insert_at : (k : ℕ) (x : A) (xs : List A) → length (insert_at k x xs) ≡ suc (length xs)
  length-insert_at zero x xs = refl
  length-insert_at (suc k) x [] = refl
  length-insert_at (suc k) x (y ∷ ys) = ap suc (length-insert_at k x ys)

  pub get_elem?-insert_at_self :
      (k : ℕ) (x : A) (xs : List A) → k ≤ length xs → get_elem? (insert_at k x xs) k ≡ some x
  get_elem?-insert_at_self zero x xs h = refl
  get_elem?-insert_at_self (suc k) x [] h = absurd (omega arith)
  get_elem?-insert_at_self (suc k) x (y ∷ ys) h = get_elem?-insert_at_self k x ys (omega arith)

  -- An element keeps its place in front of an insertion, and moves up by one behind it.
  pub get_elem?-insert_at_le :
      (k : ℕ) (x : A) (xs : List A) (i : ℕ)
      → k ≤ i
      → get_elem? (insert_at k x xs) (suc i) ≡ get_elem? xs i
  get_elem?-insert_at_le zero x xs i h = refl
  get_elem?-insert_at_le (suc k) x [] i h = refl
  get_elem?-insert_at_le (suc k) x (y ∷ ys) zero h = absurd (omega arith)
  get_elem?-insert_at_le (suc k) x (y ∷ ys) (suc i) h =
      get_elem?-insert_at_le k x ys i (omega arith)

  pub get_elem?-insert_at_gt :
      (k : ℕ) (x : A) (xs : List A) (i : ℕ)
      → i < k
      → i < length xs
      → get_elem? (insert_at k x xs) i ≡ get_elem? xs i
  get_elem?-insert_at_gt zero x xs i h l = absurd (omega arith)
  get_elem?-insert_at_gt (suc k) x [] i h l = absurd (omega arith)
  get_elem?-insert_at_gt (suc k) x (y ∷ ys) zero h l = refl
  get_elem?-insert_at_gt (suc k) x (y ∷ ys) (suc i) h l =
      get_elem?-insert_at_gt k x ys i (omega arith) (omega arith)

  pub get_elem?-append_lt :
      (xs ys : List A) (i : ℕ) → i < length xs → get_elem? (xs ++ ys) i ≡ get_elem? xs i
  get_elem?-append_lt [] ys i h = absurd (omega arith)
  get_elem?-append_lt (x ∷ xs) ys zero h = refl
  get_elem?-append_lt (x ∷ xs) ys (suc i) h = get_elem?-append_lt xs ys i (omega arith)

  pub get_elem?-append_self :
      (xs : List A) (x : A) → get_elem? (xs ++ (x ∷ [])) (length xs) ≡ some x
  get_elem?-append_self [] x = refl
  get_elem?-append_self (y ∷ xs) x = get_elem?-append_self xs x
