-- ===== src/Transactions/Builder/Tracking.antt =====
-- What the methods that add inputs do to the builder: who signs for what, the totals, the runes.
use saturn_crates.Prelude.{ℕ, ◌+◌, ◌%◌, ◌≡◌, ap, ◌∙◌, List, ◌++◌, Option, ok}
use saturn_crates.Transactions.Builder.Frames.{statuses_after}
use saturn_crates.SafeMath.{u64_mod}
use saturn_crates.Collections.FixedList
use saturn_crates.Collections.FixedList.{FixedList}
use saturn_crates.Collections.FixedSet
use saturn_crates.Transactions.Chain.{OutPoint, RuneId, TxIn, TxStatus}
use saturn_crates.Transactions.Runes.Ledger.{
  held, deposit, add_rune_inputs-IsValid, held-add_rune_inputs,
}
use saturn_crates.Transactions.Builder.State.{TransactionBuilder, UtxoInfo, Caps, add_runes}
use saturn_crates.Transactions.Builder.Signers.{signatures, InRange}

pub record IsValid (c : Caps) (b : TransactionBuilder) : Type 0 where
  pub signs : FixedList.Laws.IsValid c.max_inputs_to_sign b.inputs_to_sign
  pub accounts : FixedList.Laws.IsValid c.max_modified_accounts b.modified_accounts
  pub runes : FixedSet.Laws.IsValid c.max_runes b.total_rune_inputs
  pub range : InRange b.transaction.input (FixedList.as_slice b.inputs_to_sign)

-- the outpoints that will be signed for, with their keys
abbrev pub signed : TransactionBuilder → List (Option OutPoint × ℕ)
signed b = signatures b.transaction.input (FixedList.as_slice b.inputs_to_sign)

-- `b'` has the inputs `inputs`, counts `utxo` on top of what `b` counts, with its status, and has the
-- signatures `new` on top of those of `b`; the outputs are those of `b`.
pub record Spends (c : Caps) (b : TransactionBuilder) (utxo : UtxoInfo) (status : TxStatus)
    (inputs : List TxIn) (new : List (Option OutPoint × ℕ)) (b' : TransactionBuilder) : Type 0 where
  pub valid : IsValid c b'
  pub spent : b'.transaction ≡ record b.transaction { input = inputs }
  pub statuses : b'.tx_statuses ≡ statuses_after utxo status b
  pub signatures : signed b' ≡ signed b ++ new
  pub btc : b'.total_btc_input ≡ (b.total_btc_input + utxo.value) % u64_mod
  pub rune :
      (j : RuneId)
      → held b'.total_rune_inputs j
        ≡ held b.total_rune_inputs j + deposit (FixedSet.as_slice utxo.runes) j

-- Crediting the runes completes a step that has done the rest.
pub spend :
    (c : Caps) (b : TransactionBuilder) (utxo : UtxoInfo) (status : TxStatus) (inputs : List TxIn)
    (new : List (Option OutPoint × ℕ)) (b' : TransactionBuilder)
    → IsValid c b'
    → b'.transaction ≡ record b.transaction { input = inputs }
    → b'.tx_statuses ≡ statuses_after utxo status b
    → signed b' ≡ signed b ++ new
    → b'.total_btc_input ≡ (b.total_btc_input + utxo.value) % u64_mod
    → b'.total_rune_inputs ≡ b.total_rune_inputs
    → (add_runes c (FixedSet.as_slice utxo.runes) b').0 ≡ ok tt
    → Spends c b utxo status inputs new (add_runes c (FixedSet.as_slice utxo.runes) b').1
unfolding add_runes
spend c b utxo status inputs new b' v i st s t r done = record {
  valid = record {
    signs = v.signs;
    accounts = v.accounts;
    runes =
        add_rune_inputs-IsValid c.max_runes (FixedSet.as_slice utxo.runes) b'.total_rune_inputs
          v.runes;
    range = v.range;
  };
  spent = i;
  statuses = st;
  signatures = s;
  btc = t;
  rune = λ j.
      held-add_rune_inputs c.max_runes (FixedSet.as_slice utxo.runes) b'.total_rune_inputs j v.runes
        done
      ∙ ap (λ x. held x j + deposit (FixedSet.as_slice utxo.runes) j) r;
}
