-- ===== src/Transactions/Builder/Select.antt =====
-- `find_btc_in_program_utxos` of saturn-bitcoin-transactions/src/lib.rs.
pub mod Order
pub mod Enough
use saturn_crates.Prelude.{
  ℕ, zero, suc, ◌+◌, ◌-◌, ◌%◌, List, [], ◌∷◌, ◌++◌, Bool, true, false, Option, none, some, Result,
  ok, err, panicked, leb, ltb, if◌then◌else◌, length, get_elem?,
}
use saturn_crates.Prelude.Exec.{◌>>=◌, ◌>>◌, return, fail}
use saturn_crates.Prelude.Sort.{sort_by}
use saturn_crates.SafeMath.{u64_mod}
use saturn_crates.Transactions.Chain.{confirmed}
use saturn_crates.Transactions.Errors.{not_enough_btc_in_pool}
use saturn_crates.Transactions.Builder.State.{UtxoInfo, Caps, Build}
use saturn_crates.Transactions.Builder.Inputs.{add_tx_input}

-- `(0..n).collect()`, from `i` on
abbrev pub range_from : ℕ → ℕ → List ℕ
range_from i zero = []
range_from i (suc n) = i ∷ range_from (suc i) n

-- the `is_some` of an option
abbrev pub is_some {ℓ} : {A : Type ℓ} → Option A → Bool
is_some none = false
is_some (some _) = true

-- by the pair of `needs_consolidation.is_some()`, and then by value, the biggest first
abbrev pub not_after : Bool → Bool → ℕ → ℕ → Bool
not_after false true x y = true
not_after true false x y = false
not_after _ _ x y = leb y x

module _ (utxos : List UtxoInfo) where
  -- The indices come from `0..utxos.len()`, so that none is out of range.
  abbrev pub value_at : ℕ → ℕ
  value_at i = elim (get_elem? utxos i) [ none ↦ 0 | some u ↦ u.value ]

  abbrev pub consolidates_at : ℕ → Bool
  consolidates_at i = elim (get_elem? utxos i) [
    | none ↦ false
    | some u ↦ is_some u.needs_consolidation
  ]

  -- the comparison of `sort_by` does not say Greater
  abbrev pub preferred : ℕ → ℕ → Bool
  preferred a b = not_after (consolidates_at a) (consolidates_at b) (value_at a) (value_at b)

  -- The loop over the sorted indices. `selected_count` counts its rounds, so the write to
  -- `utxo_indices[selected_count]` leaves every index in place, and `truncate` keeps those of the
  -- rounds.
  unfoldable pub select : Caps → ℕ → ℕ → List ℕ → ℕ → Build (List ℕ × ℕ)
  select c signer amount [] btc = return ([], btc)
  select c signer amount (i ∷ is) btc = elim (leb amount btc) [
    | true ↦ return ([], btc)
    | false ↦ elim (get_elem? utxos i) [
      | none ↦ (λ b. (panicked, b))
      | some utxo ↦ do
        add_tx_input c utxo confirmed signer
        (sel, total) ← select c signer amount is ((btc + utxo.value) % u64_mod)
        return (i ∷ sel, total)
    ]
  ]

  unfoldable pub sorted_indices : List ℕ
  unfolding sort_by
  sorted_indices = sort_by preferred (range_from 0 (length utxos))

  unfoldable pub find_btc_in_program_utxos : Caps → ℕ → ℕ → Build (List ℕ × ℕ)
  unfolding select sorted_indices
  find_btc_in_program_utxos c signer amount = do
    (sel, total) ← select c signer amount sorted_indices 0
    if ltb total amount then fail not_enough_btc_in_pool else return (sel, total)
