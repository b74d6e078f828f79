-- ===== src/Transactions/Reserve/Rollback.antt =====
-- An estimate leaves the transaction and the list of inputs to sign as they were.
use saturn_crates.Prelude.{
  ℕ, zero, suc, ◌+◌, ◌%◌, ◌≡◌, refl, sym, ap, ap₂, ◌∙◌, List, [], ◌∷◌, ◌++◌, Option, none, some, ok,
  Result-cases, length, replicate, arith, ok-injective, length-append, length-replicate,
  append_assoc, append-nil, inl, inr, last_cases,
}
use mathlib.Core.Path.{subst}
use saturn_crates.SafeMath.{u32_mod}
use saturn_crates.Collections.PushPop.{PushPop, IsPushPop}
use saturn_crates.Transactions.Chain.{Node, Transaction, TxIn, TxOut, InputToSign}
use saturn_crates.Transactions.Fees.{estimate_final_tx_total_size, estimate_final_tx_vsize}
use saturn_crates.Transactions.Reserve.{
  NewPotentialInputAmount, NewPotentialInputsAndOutputs, Draft, drop_last, sign, push_input,
  add_inputs, add_outputs, add_reserved_inputs, add_reserved_inputs_and_outputs, pop_signs,
  rollback_signs, rollback_inputs, rollback_outputs, rollback_potential_inputs_and_outputs,
  with_outputs, estimate_tx_size_with_additional_inputs_outputs,
  estimate_tx_vsize_with_additional_inputs_outputs,
}
use saturn_crates.Transactions.Reserve.Reserved.{
  drop_last-append, rollback-add_outputs, reserved_signs, length-reserved_signs, reserved_inputs,
  new_signs, planned,
}

module _ {C : Type 0} (p : PushPop C InputToSign) (law : IsPushPop p) where
  pop_signs-append :
      (c : C) (xs ys : List InputToSign)
      → law.IsValid c
      → p.as_slice c ≡ xs ++ ys
      → p.as_slice (pop_signs p (length ys) c) ≡ xs × law.IsValid (pop_signs p (length ys) c)
  pop_signs-append c xs ys v e = go (length ys) c ys refl v e
    where
      go :
          (count : ℕ) (c : C) (ys : List InputToSign)
          → length ys ≡ count
          → law.IsValid c
          → p.as_slice c ≡ xs ++ ys
          → (p.as_slice (pop_signs p count c) ≡ xs) × law.IsValid (pop_signs p count c)
      go zero c [] h v e = (e ∙ append-nil xs, v)
      go zero c (y ∷ ys) h v e = absurd (omega (arith, h))
      go (suc count) c ys h v e = elim (last_cases ys) [
        | inl empty ↦ absurd (omega (arith, h, ap length empty))
        | inr (zs, z, split) ↦
            let front =
              law.pop-append c (xs ++ zs) z v
                (e ∙ ap (λ l. xs ++ l) split ∙ sym (append_assoc xs zs (z ∷ []))) in
            go count (p.pop c).1 zs (omega (arith, h, ap length split, length-append zs (z ∷ [])))
              (law.pop-IsValid c v) front.1
      ]

  abbrev pub with_inputs : List TxIn → Draft C → Draft C
  with_inputs new d = record d {
    transaction = record d.transaction { input = d.transaction.input ++ new };
  }

  with_inputs-push :
      (item : TxIn) (count : ℕ) (d : Draft C)
      → with_inputs (replicate count item) (push_input p item d)
        ≡ with_inputs (replicate (suc count) item) d
  with_inputs-push item count d =
      ap (λ l. record d { transaction = record d.transaction { input = l } })
        (append_assoc d.transaction.input (item ∷ []) (replicate count item))

  with_inputs-nil : (d : Draft C) → with_inputs [] d ≡ d
  with_inputs-nil d =
      ap (λ l. record d { transaction = record d.transaction { input = l } })
        (append-nil d.transaction.input)

  pub add_inputs-none :
      (start : ℕ) (item : TxIn) (i count : ℕ) (d : Draft C)
      → add_inputs p start item none i count d ≡ (ok tt, with_inputs (replicate count item) d)
  unfolding add_inputs
  add_inputs-none start item i zero d = ap (λ d. (ok tt, d)) (sym (with_inputs-nil d))
  add_inputs-none start item i (suc count) d =
      add_inputs-none start item (suc i) count (push_input p item d)
      ∙ ap (λ d. (ok tt, d)) (with_inputs-push item count d)

  -- the draft with `count` inputs more, and the entries `signs`
  Reserved : TxIn → ℕ → List InputToSign → Draft C → Draft C → Type 0
  Reserved item count signs d d' =
      (d'.transaction ≡ (with_inputs (replicate count item) d).transaction)
      × (p.as_slice d'.inputs_to_sign ≡ p.as_slice d.inputs_to_sign ++ signs)
      × law.IsValid d'.inputs_to_sign

  add_inputs-some :
      (start : ℕ) (item : TxIn) (signer i count : ℕ) (d : Draft C)
      → law.IsValid d.inputs_to_sign
      → (add_inputs p start item (some signer) i count d).0 ≡ ok tt
      → Reserved item count
          (reserved_signs start signer i count)
          d
          (add_inputs p start item (some signer) i count d).1
  unfolding add_inputs sign Reserved
  add_inputs-some start item signer i zero d v h = (
    ap (λ d. d.transaction) (sym (with_inputs-nil d)),
    sym (append-nil (p.as_slice d.inputs_to_sign)),
    v,
  )
  add_inputs-some start item signer i (suc count) d v h =
      let entry : InputToSign = record { index = (start + i) % u32_mod; signer = signer } in
      let rest = reserved_signs start signer (suc i) count in
      elim (law.push-Pushed d.inputs_to_sign entry v) [
        | inl (done, slice) ↦
            let d' : Draft C =
              push_input p item (record d { inputs_to_sign = (p.push d.inputs_to_sign entry).1 }) in
            let (tx, signs, valid) =
              add_inputs-some start item signer (suc i) count d'
                (law.push-IsValid d.inputs_to_sign entry v) (rw done at h) in
            rw done (
              tx ∙ ap (λ d. d.transaction) (with_inputs-push item count d),
              signs
                  ∙ ap (λ l. l ++ rest) slice
                  ∙ append_assoc (p.as_slice d.inputs_to_sign) (entry ∷ []) rest,
              valid,
            )
        | inr (failed, same) ↦ absurd (cc (rw failed at h))
      ]

  -- the draft with what the argument reserves
  Extended : Option NewPotentialInputAmount → Draft C → Draft C → Type 0
  Extended n d d' =
      (d'.transaction ≡ (with_inputs (reserved_inputs n) d).transaction)
      × (p.as_slice d'.inputs_to_sign
          ≡ p.as_slice d.inputs_to_sign ++ new_signs n (length d.transaction.input))
      × law.IsValid d'.inputs_to_sign

  add_reserved_inputs-Extended :
      (n : Option NewPotentialInputAmount) (d : Draft C)
      → law.IsValid d.inputs_to_sign
      → (add_reserved_inputs p n d).0 ≡ ok tt
      → Extended n d (add_reserved_inputs p n d).1
  unfolding add_reserved_inputs Extended Reserved
  add_reserved_inputs-Extended none d v h = (
    ap (λ d. d.transaction) (sym (with_inputs-nil d)),
    sym (append-nil (p.as_slice d.inputs_to_sign)),
    v,
  )
  add_reserved_inputs-Extended (some n) d v h = go n.signer h
    where
      go :
          (signer : Option ℕ)
          → (add_inputs p (length d.transaction.input) n.item signer 0 n.count d).0 ≡ ok tt
          → Extended
              (some (record n { signer = signer }))
              d
              (add_inputs p (length d.transaction.input) n.item signer 0 n.count d).1
      go none h =
          rw (add_inputs-none (length d.transaction.input) n.item 0 n.count d)
            (refl, sym (append-nil (p.as_slice d.inputs_to_sign)), v)
      go (some signer) h =
          add_inputs-some (length d.transaction.input) n.item signer 0 n.count d v h

  abbrev cut : ℕ → Transaction → Transaction
  cut count tx = record tx { input = drop_last count tx.input }

  rollback_inputs-Extended :
      (n : Option NewPotentialInputAmount) (d d' : Draft C)
      → Extended n d d'
      → law.IsValid d'.inputs_to_sign
      → ((rollback_inputs p n d').transaction ≡ d.transaction)
        × (p.as_slice (rollback_inputs p n d').inputs_to_sign ≡ p.as_slice d.inputs_to_sign)
        × law.IsValid (rollback_inputs p n d').inputs_to_sign
  unfolding rollback_inputs Extended
  rollback_inputs-Extended none d d' (tx, signs, v) _ = (
    tx ∙ ap (λ d. d.transaction) (with_inputs-nil d),
    signs ∙ append-nil (p.as_slice d.inputs_to_sign),
    v,
  )
  rollback_inputs-Extended (some n) d d' (tx, signs, v) _ =
      let (slice, valid) = unsign n.signer signs in
      (
        ap (cut n.count) tx
            ∙ ap {B = Transaction} (λ l. record d.transaction { input = l })
                (drop_last-append d.transaction.input (replicate n.count n.item) n.count
                  (length-replicate n.count n.item)),
        slice,
        valid,
      )
    where
      unsign :
          (signer : Option ℕ)
          → p.as_slice d'.inputs_to_sign
            ≡ p.as_slice d.inputs_to_sign
              ++ new_signs (some (record n { signer = signer })) (length d.transaction.input)
          → (p.as_slice (rollback_signs p signer n.count d'.inputs_to_sign)
              ≡ p.as_slice d.inputs_to_sign)
            × law.IsValid (rollback_signs p signer n.count d'.inputs_to_sign)
      unsign none e = (e ∙ append-nil (p.as_slice d.inputs_to_sign), v)
      unsign (some signer) e =
          let entries = reserved_signs (length d.transaction.input) signer 0 n.count in
          let count = length-reserved_signs (length d.transaction.input) signer 0 n.count in
          subst
            (λ k.
              (p.as_slice (pop_signs p k d'.inputs_to_sign) ≡ p.as_slice d.inputs_to_sign)
              × law.IsValid (pop_signs p k d'.inputs_to_sign))
            count (pop_signs-append d'.inputs_to_sign (p.as_slice d.inputs_to_sign) entries v e)

  abbrev outputs_by : (List TxOut → List TxOut) → Transaction → Transaction
  outputs_by f tx = record tx { output = f tx.output }

  rollback_inputs-with_outputs :
      (i : Option NewPotentialInputAmount) (f : List TxOut → List TxOut) (d : Draft C)
      → rollback_inputs p i (with_outputs p f d) ≡ with_outputs p f (rollback_inputs p i d)
  unfolding rollback_inputs
  rollback_inputs-with_outputs none f d = refl
  rollback_inputs-with_outputs (some n) f d = refl

  -- the draft with all that the argument reserves
  abbrev pub full_draft : NewPotentialInputsAndOutputs → Draft C → Draft C
  full_draft n d = with_outputs p (add_outputs n.outputs) (add_reserved_inputs p n.inputs d).1

  rollback-restores :
      (n : NewPotentialInputsAndOutputs) (d : Draft C)
      → law.IsValid d.inputs_to_sign
      → (add_reserved_inputs p n.inputs d).0 ≡ ok tt
      → ((rollback_potential_inputs_and_outputs p n (full_draft n d)).transaction ≡ d.transaction)
        × (p.as_slice (rollback_potential_inputs_and_outputs p n (full_draft n d)).inputs_to_sign
            ≡ p.as_slice d.inputs_to_sign)
        × law.IsValid (rollback_potential_inputs_and_outputs p n (full_draft n d)).inputs_to_sign
  unfolding rollback_potential_inputs_and_outputs Extended
  rollback-restores n d v done =
      let d' : Draft C = (add_reserved_inputs p n.inputs d).1 in
      let more = add_reserved_inputs-Extended n.inputs d v done in
      let (tx, slice, valid) = rollback_inputs-Extended n.inputs d d' more more.2 in
      rw (rollback_inputs-with_outputs n.inputs (add_outputs n.outputs) d') (
        ap (outputs_by (λ os. rollback_outputs n.outputs (add_outputs n.outputs os))) tx
            ∙ ap (λ os. outputs_by (λ _. os) d.transaction)
                (rollback-add_outputs n.outputs d.transaction.output),
        slice,
        valid,
      )

  full_draft_lem :
      (n : NewPotentialInputsAndOutputs) (d : Draft C)
      → law.IsValid d.inputs_to_sign
      → (add_reserved_inputs p n.inputs d).0 ≡ ok tt
      → ((full_draft n d).transaction ≡ planned n d.transaction)
        × (p.as_slice (full_draft n d).inputs_to_sign
            ≡ p.as_slice d.inputs_to_sign ++ new_signs n.inputs (length d.transaction.input))
  unfolding Extended
  full_draft_lem n d v done =
      let (tx, signs, _) = add_reserved_inputs-Extended n.inputs d v done in
      (ap (outputs_by (add_outputs n.outputs)) tx, signs)

  -- An estimate that succeeds measures the transaction with what is reserved added, and leaves the
  -- transaction and the entries to sign as they were.
  pub estimate_tx_size-restores :
      (node : Node) (n : NewPotentialInputsAndOutputs) (d : Draft C) (size : ℕ)
      → law.IsValid d.inputs_to_sign
      → (estimate_tx_size_with_additional_inputs_outputs p node n d).0 ≡ ok size
      → ((estimate_tx_size_with_additional_inputs_outputs p node n d).1.transaction ≡ d.transaction)
        × (p.as_slice (estimate_tx_size_with_additional_inputs_outputs p node n d).1.inputs_to_sign
            ≡ p.as_slice d.inputs_to_sign)
        × law.IsValid (estimate_tx_size_with_additional_inputs_outputs p node n d).1.inputs_to_sign
        × (size
            ≡ estimate_final_tx_total_size node
                (planned n d.transaction)
                (p.as_slice d.inputs_to_sign ++ new_signs n.inputs (length d.transaction.input)))
  unfolding estimate_tx_size_with_additional_inputs_outputs add_reserved_inputs_and_outputs
      rollback_potential_inputs_and_outputs
  estimate_tx_size-restores node n d size v h =
      elim (Result-cases (add_reserved_inputs p n.inputs d).0) [
        | inl (t, done) ↦
            let (tx, slice, valid) = rollback-restores n d v done in
            let (measured, signs) = full_draft_lem n d v done in
            rw done (
              tx,
              slice,
              valid,
              sym (ok-injective (rw done at h))
                  ∙ ap₂ (estimate_final_tx_total_size node) measured signs,
            )
        | inr (inl (x, failed)) ↦ absurd (cc (rw failed at h))
        | inr (inr panic) ↦ absurd (cc (rw panic at h))
      ]

  -- A vsize estimate that succeeds measures the transaction with what is reserved added, and leaves the
  -- transaction and the entries to sign as they were.
  pub estimate_tx_vsize-restores :
      (node : Node) (n : NewPotentialInputsAndOutputs) (d : Draft C) (size : ℕ)
      → law.IsValid d.inputs_to_sign
      → (estimate_tx_vsize_with_additional_inputs_outputs p node n d).0 ≡ ok size
      → ((estimate_tx_vsize_with_additional_inputs_outputs p node n d).1.transaction
          ≡ d.transaction)
        × (p.as_slice (estimate_tx_vsize_with_additional_inputs_outputs p node n d).1.inputs_to_sign
            ≡ p.as_slice d.inputs_to_sign)
        × law.IsValid (estimate_tx_vsize_with_additional_inputs_outputs p node n d).1.inputs_to_sign
        × (size
            ≡ estimate_final_tx_vsize node
                (planned n d.transaction)
                (p.as_slice d.inputs_to_sign ++ new_signs n.inputs (length d.transaction.input)))
  unfolding estimate_tx_vsize_with_additional_inputs_outputs add_reserved_inputs_and_outputs
      rollback_potential_inputs_and_outputs
  estimate_tx_vsize-restores node n d size v h =
      elim (Result-cases (add_reserved_inputs p n.inputs d).0) [
        | inl (t, done) ↦
            let (tx, slice, valid) = rollback-restores n d v done in
            let (measured, signs) = full_draft_lem n d v done in
            rw done (
              tx,
              slice,
              valid,
              sym (ok-injective (rw done at h)) ∙ ap₂ (estimate_final_tx_vsize node) measured signs,
            )
        | inr (inl (x, failed)) ↦ absurd (cc (rw failed at h))
        | inr (inr panic) ↦ absurd (cc (rw panic at h))
      ]
