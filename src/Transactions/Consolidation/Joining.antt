-- ===== src/Transactions/Consolidation/Joining.antt =====
-- One input that consolidation tries to add.
use mathlib.Core.Path.{subst}
use saturn_crates.Prelude.{
  ltb→lt, Result, ℕ, ◌%◌, ◌≤◌, ◌<◌, ◌≡◌, refl, sym, ap, ap₂, ◌∙◌, [], ◌∷◌, ◌++◌, false, Option,
  none, some, ok, err, ltb, length, arith, Bool-cases, inl, inr, ◌⊎◌,
}
use saturn_crates.SafeMath.{u32_mod}
use saturn_crates.Collections.PushPop
use saturn_crates.Collections.PushPop.{PushPop, IsPushPop, pop_vec, pop_vec-append}
use saturn_crates.Transactions.Chain.{Node, Transaction, TxIn, InputToSign}
use saturn_crates.Transactions.Errors.{
  BitcoinTxError, input_to_sign_list_full, transaction_too_large,
}
use saturn_crates.Transactions.Fees.{estimate_final_tx_total_size}
use saturn_crates.Transactions.Reserve.{
  NewPotentialInputAmount, NewPotentialInputsAndOutputs, Draft, sign, push_input,
  add_reserved_inputs, add_reserved_inputs_and_outputs,
  estimate_tx_size_with_additional_inputs_outputs,
}
use saturn_crates.Transactions.Reserve.Reserved.{planned, new_signs}
use saturn_crates.Transactions.Reserve.Rollback.{
  full_draft, add_inputs-none, estimate_tx_size-restores,
}
use saturn_crates.Transactions.Consolidation.{pop_input, safe_add_input_to_transaction}

-- No place in the list of inputs to sign is reserved.
abbrev pub Unsigned : Option NewPotentialInputAmount → Type 0
Unsigned none = Unit
Unsigned (some n) = n.signer ≡ none

not_ltb : (a b : ℕ) → ltb a b ≡ false → b ≤ a
not_ltb a b h = ground arith

module _ {C : Type 0} (p : PushPop C InputToSign) (law : IsPushPop p) (node : Node)
    (n : NewPotentialInputsAndOutputs) where
  add_reserved_inputs-ok :
      (i : Option NewPotentialInputAmount) (d : Draft C)
      → Unsigned i
      → (add_reserved_inputs p i d).0 ≡ ok tt
  unfolding add_reserved_inputs
  add_reserved_inputs-ok none d u = refl
  add_reserved_inputs-ok (some i) d u =
      rw (u, add_inputs-none p law (length d.transaction.input) i.item 0 i.count d) refl

  estimate-ok :
      (d : Draft C)
      → Unsigned n.inputs
      → (size : ℕ) × ((estimate_tx_size_with_additional_inputs_outputs p node n d).0 ≡ ok size)
  unfolding estimate_tx_size_with_additional_inputs_outputs add_reserved_inputs_and_outputs
  estimate-ok d u = (
    estimate_final_tx_total_size node (full_draft p law n d).transaction
        (p.as_slice (full_draft p law n d).inputs_to_sign),
    rw (add_reserved_inputs-ok n.inputs d u) refl,
  )

  abbrev pub entry : Draft C → ℕ → InputToSign
  entry d signer = record { index = length d.transaction.input % u32_mod; signer = signer }

  abbrev pub Kept : Draft C → Draft C → Type 0
  Kept d d' =
      (d'.transaction ≡ d.transaction)
      × (p.as_slice d'.inputs_to_sign ≡ p.as_slice d.inputs_to_sign)
      × law.IsValid d'.inputs_to_sign

  abbrev pub Grown : ℕ → TxIn → Draft C → Draft C → Type 0
  Grown signer input d d' =
      (d'.transaction ≡ (push_input p input d).transaction)
      × (p.as_slice d'.inputs_to_sign ≡ p.as_slice d.inputs_to_sign ++ (entry d signer ∷ []))
      × law.IsValid d'.inputs_to_sign
      × (estimate_final_tx_total_size node (planned n d'.transaction)
            (p.as_slice d'.inputs_to_sign ++ new_signs n.inputs (length d'.transaction.input))
          ≤ node.max_btc_tx_size)

  unadd :
      (signer : ℕ) (input : TxIn) (d d' : Draft C)
      → d'.transaction ≡ (push_input p input d).transaction
      → p.as_slice d'.inputs_to_sign ≡ p.as_slice d.inputs_to_sign ++ (entry d signer ∷ [])
      → law.IsValid d'.inputs_to_sign
      → Kept d (pop_input p node n d')
  unadd signer input d d' tx signs v = (
    ap without_last tx
        ∙ ap (λ q. record d.transaction { input = q.1 }) (pop_vec-append d.transaction.input input),
    (law.pop-append d'.inputs_to_sign (p.as_slice d.inputs_to_sign) (entry d signer) v signs).1,
    law.pop-IsValid d'.inputs_to_sign v,
  )
    where
      without_last : Transaction → Transaction
      without_last tx = record tx { input = (pop_vec tx.input).1 }

  grown :
      (signer : ℕ) (input : TxIn) (d d' : Draft C) (size : ℕ)
      → d'.transaction ≡ (push_input p input d).transaction
      → p.as_slice d'.inputs_to_sign ≡ p.as_slice d.inputs_to_sign ++ (entry d signer ∷ [])
      → law.IsValid d'.inputs_to_sign
      → ltb node.max_btc_tx_size size ≡ false
      → size
        ≡ estimate_final_tx_total_size node
            (planned n d'.transaction)
            (p.as_slice d'.inputs_to_sign ++ new_signs n.inputs (length d'.transaction.input))
      → Grown signer input d d'
  grown signer input d d' size tx signs v fits e =
      (tx, signs, v, rw e at (not_ltb node.max_btc_tx_size size fits))

  -- the size that the transaction may come to with the input, its entry and what is reserved
  abbrev pub size_with : ℕ → TxIn → Draft C → ℕ
  size_with signer input d =
      estimate_final_tx_total_size node (planned n (push_input p input d).transaction) (
        (p.as_slice d.inputs_to_sign ++ (entry d signer ∷ []))
        ++ new_signs n.inputs (length (push_input p input d).transaction.input))

  -- what there is to see of a call, with its result and the draft after it
  abbrev pub Joined : ℕ → TxIn → Draft C → Result BitcoinTxError (Unit {0}) × Draft C → Type 0
  Joined signer input d (r, d') =
      ((size_with signer input d ≤ node.max_btc_tx_size) × (r ≡ ok tt) × Grown signer input d d')
      ⊎ ((node.max_btc_tx_size < size_with signer input d)
          × (r ≡ err transaction_too_large)
          × Kept d d')

  -- An input joins the transaction with an entry that signs it exactly if the collection of entries takes
  -- the entry and the size that the transaction may come to stays in the limit. Otherwise the call fails,
  -- with an error for each of the two, and leaves transaction and entries as they were. (No place to sign
  -- is reserved.)
  pub safe_add_input_to_transaction_lem :
      (signer : ℕ) (input : TxIn) (d : Draft C)
      → law.IsValid d.inputs_to_sign
      → Unsigned n.inputs
      → (((p.push d.inputs_to_sign (entry d signer)).0 ≡ ok tt)
          × Joined signer input d (safe_add_input_to_transaction p node n signer input d))
        ⊎ (((p.push d.inputs_to_sign (entry d signer)).0 ≡ err PushPop.full)
            × ((safe_add_input_to_transaction p node n signer input d).0
                ≡ err input_to_sign_list_full)
            × Kept d (safe_add_input_to_transaction p node n signer input d).1)
  unfolding safe_add_input_to_transaction sign
  safe_add_input_to_transaction_lem signer input d v u =
      elim (law.push-Pushed d.inputs_to_sign (entry d signer) v) [
        | inr (failed, same) ↦ inr (failed, rw failed refl, rw (failed, same) (refl, refl, v))
        | inl (done, slice) ↦
            let d' : Draft C =
              push_input p input
                (record d { inputs_to_sign = (p.push d.inputs_to_sign (entry d signer)).1 }) in
            let v' = law.push-IsValid d.inputs_to_sign (entry d signer) v in
            let (size, estimated) = estimate-ok d' u in
            let (tx, signs, valid, measured) =
              estimate_tx_size-restores p law node n d' size v' estimated in
            let after : Draft C = (estimate_tx_size_with_additional_inputs_outputs p node n d').1 in
            let size_is : size ≡ size_with signer input d =
              measured
              ∙ ap
                  (λ l.
                    estimate_final_tx_total_size node (planned n (push_input p input d).transaction)
                      (l ++ new_signs n.inputs (length (push_input p input d).transaction.input)))
                  slice in
            elim (Bool-cases (ltb node.max_btc_tx_size size)) [
              | inl big ↦ inl (
                done,
                rw (done, estimated, big)
                    (inr (
                      subst (λ k. node.max_btc_tx_size < k) size_is
                          (ltb→lt node.max_btc_tx_size size big),
                      refl,
                      unadd signer input d after tx (signs ∙ slice) valid,
                    )),
              )
              | inr fits ↦ inl (
                done,
                rw (done, estimated, fits)
                    (inl (
                      subst (λ k. k ≤ node.max_btc_tx_size) size_is
                          (not_ltb node.max_btc_tx_size size fits),
                      refl,
                      grown signer input d after size tx (signs ∙ slice) valid fits (
                          measured
                          ∙ ap₂
                              (λ t l.
                                estimate_final_tx_total_size node (planned n t)
                                  (l ++ new_signs n.inputs (length t.input)))
                              (sym tx) (sym signs)),
                    )),
              )
            ]
      ]
