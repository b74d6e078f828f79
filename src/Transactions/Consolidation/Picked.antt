-- ===== src/Transactions/Consolidation/Picked.antt =====
-- The UTXOs that consolidation goes through, and how far it comes.
use mathlib.Core.Path.{subst}
use saturn_crates.Prelude.{
  ℕ, ◌+◌, ◌%◌, ◌<◌, ◌≡◌, sym, ap, ap₂, List, [], ◌∷◌, ◌++◌, true, false, err, length, map, inl, inr,
  ◌⊎◌,
}
use saturn_crates.SafeMath.{u32_mod}
use saturn_crates.Collections.PushPop
use saturn_crates.Collections.PushPop.{PushPop, IsPushPop, pop_vec, pop_vec-append}
use saturn_crates.Transactions.Chain.{Node, Transaction, TxIn, InputToSign, FeeRate}
use saturn_crates.Transactions.Fees.{estimate_final_tx_total_size}
use saturn_crates.Transactions.Builder.State.{UtxoInfo, unsigned_input}
use saturn_crates.Transactions.Reserve.{NewPotentialInputsAndOutputs, Draft}
use saturn_crates.Transactions.Reserve.Reserved.{planned, new_signs}
use saturn_crates.Transactions.Consolidation.{should_consolidate, in_transaction}
use saturn_crates.Transactions.Consolidation.Joining.{entry, Kept, size_with}

-- The second list has the elements of the first, in their order.
abbrev pub Sublist : {A : Type 0} → List A → List A → Type 0
Sublist [] ys = Unit
Sublist (x ∷ xs) [] = ⊥
Sublist (x ∷ xs) (y ∷ ys) = ((x ≡ y) × Sublist xs ys) ⊎ Sublist (x ∷ xs) ys

-- Each of the UTXOs is spent by no input before it.
abbrev pub Fresh : List TxIn → List UtxoInfo → Type 0
Fresh inputs [] = Unit
Fresh inputs (u ∷ us) =
    (in_transaction u.meta inputs ≡ false) × Fresh (inputs ++ (unsigned_input u.meta ∷ [])) us

-- the UTXOs that are old enough and that no input before them spends, neither one of the transaction nor one
-- for a UTXO that is picked before
abbrev pub picked : FeeRate → List TxIn → List UtxoInfo → List UtxoInfo
picked rate inputs [] = []
picked rate inputs (u ∷ us) = elim (should_consolidate rate u) [
  | false ↦ picked rate inputs us
  | true ↦ elim (in_transaction u.meta inputs) [
    | true ↦ picked rate inputs us
    | false ↦ u ∷ picked rate (inputs ++ (unsigned_input u.meta ∷ [])) us
  ]
]

abbrev pub spending : List UtxoInfo → List TxIn
spending = map (λ u. unsigned_input u.meta)

-- the entries that sign for so many new inputs
abbrev pub entries_from : ℕ → ℕ → List UtxoInfo → List InputToSign
entries_from signer start [] = []
entries_from signer start (u ∷ us) =
    record { index = start % u32_mod; signer = signer } ∷ entries_from signer (start + 1) us

module _ {C : Type 0} (p : PushPop C InputToSign) (law : IsPushPop p) (node : Node)
    (n : NewPotentialInputsAndOutputs) where
  -- The UTXO cannot join the draft: the size would pass the limit, or a collection with the entries of the
  -- draft has no place for one more.
  abbrev pub NoRoom : ℕ → UtxoInfo → Draft C → Type 0
  NoRoom signer u d =
      (node.max_btc_tx_size < size_with p law node n signer (unsigned_input u.meta) d)
      ⊎ ((c : C) × law.IsValid c
          × (p.as_slice c ≡ p.as_slice d.inputs_to_sign)
          × ((p.push c (entry p law node n d signer)).0 ≡ err PushPop.full))

  pub too_large :
      (signer : ℕ) (u : UtxoInfo) (d d' : Draft C)
      → node.max_btc_tx_size < size_with p law node n signer (unsigned_input u.meta) d
      → Kept p law node n d d'
      → NoRoom signer u d'
  too_large signer u d d' h (tx, slice, v) =
      inl (subst (λ k. node.max_btc_tx_size < k) (ap₂ size_of (sym tx) (sym slice)) h)
    where
      size_of : Transaction → List InputToSign → ℕ
      size_of t l =
          estimate_final_tx_total_size node
            (planned n (record t { input = t.input ++ (unsigned_input u.meta ∷ []) }))
            ((l ++ (record { index = length t.input % u32_mod; signer = signer } ∷ []))
              ++ new_signs n.inputs (length (t.input ++ (unsigned_input u.meta ∷ []))))

  pub no_place :
      (signer : ℕ) (u : UtxoInfo) (d d' : Draft C)
      → law.IsValid d.inputs_to_sign
      → (p.push d.inputs_to_sign (entry p law node n d signer)).0 ≡ err PushPop.full
      → Kept p law node n d d'
      → NoRoom signer u d'
  no_place signer u d d' v h (tx, slice, _) = inr (
    d.inputs_to_sign,
    v,
    sym slice,
    subst (λ t. (p.push d.inputs_to_sign (entry_at t)).0 ≡ err PushPop.full) (sym tx) h,
  )
    where
      entry_at : Transaction → InputToSign
      entry_at t = record { index = length t.input % u32_mod; signer = signer }

  -- All that can be picked are chosen, or those before the first that cannot join.
  abbrev pub UpTo : ℕ → List UtxoInfo → Draft C → List UtxoInfo → Type 0
  UpTo signer chosen d us =
      (us ≡ chosen)
      ⊎ ((next : UtxoInfo) × (later : List UtxoInfo) × (us ≡ chosen ++ (next ∷ later))
          × NoRoom signer next d)

  pub UpTo-cons :
      (signer : ℕ) (u : UtxoInfo) (chosen us : List UtxoInfo) (d : Draft C)
      → UpTo signer chosen d us
      → UpTo signer (u ∷ chosen) d (u ∷ us)
  UpTo-cons signer u chosen us d (inl e) = inl (ap (λ t. u ∷ t) e)
  UpTo-cons signer u chosen us d (inr (next, later, e, full)) =
      inr (next, later, ap (λ t. u ∷ t) e, full)
