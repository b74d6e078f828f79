-- ===== src/Transactions/Fees/Adjust.antt =====
-- What adjust_transaction_to_pay_fees leaves to the miner.
use saturn_crates.Prelude.{
  ℕ, ◌+◌, ◌-◌, ◌*◌, ◌/◌, ◌%◌, ◌≤◌, ◌<◌, ◌≡◌, refl, sym, ap, ◌∙◌, List, [], ◌∷◌, ◌++◌, Option, none,
  some, ok, err, Result-cases, leb, length, arith, leb→le, Bool-cases, inl, inr, ◌⊎◌,
}
use saturn_crates.Prelude.Sort.{sum_by, sum_by-append}
use saturn_crates.SafeMath.{u64_mod, safe_add, safe_sub}
use saturn_crates.Collections.PushPop.{pop_vec-append}
use saturn_crates.Transactions.Chain.{
  Node, FeeRate, Transaction, TxOut, Script, InputToSign, MempoolInfo,
}
use saturn_crates.Transactions.Errors.{not_enough_amount_to_cover_fees}
use saturn_crates.Transactions.Builder.State.{dust_limit}
use saturn_crates.Transactions.Fees.{
  witness_weight_bytes, witness_weight_overhead, estimate_final_tx_vsize,
  calculate_fees_for_transaction, push_output, pop_output, set_last_value, settle_change,
  pay_for_change, add_change, available_for_change, adjust_transaction_to_pay_fees,
}

abbrev pub spent : Transaction → ℕ
spent tx = sum_by (λ o. o.value) tx.output

-- An amount takes eight bytes of a transaction, whatever it is.
abbrev pub SizeIgnoresValues : Node → Type 0
SizeIgnoresValues n =
    (tx : Transaction) (outputs : List TxOut) (o : TxOut) (value : ℕ)
    → n.vsize (record tx { output = outputs ++ (record o { value = value } ∷ []) })
      ≡ n.vsize (record tx { output = outputs ++ (o ∷ []) })

set_last_value-append :
    (value : ℕ) (os : List TxOut) (o : TxOut)
    → set_last_value value (os ++ (o ∷ [])) ≡ os ++ (record o { value = value } ∷ [])
set_last_value-append value [] o = refl
set_last_value-append value (p ∷ []) o = refl
set_last_value-append value (p ∷ (q ∷ os)) o =
    ap (λ l. p ∷ l) (set_last_value-append value (q ∷ os) o)

module _ (n : Node) (signs : List InputToSign) (statuses : MempoolInfo) (rate : FeeRate) where
  -- the fee that the transaction needs for itself
  abbrev pub own_fee : Transaction → ℕ
  own_fee tx = n.fee rate (estimate_final_tx_vsize n tx signs)

  fees-ok :
      (tx : Transaction) (pending total base : ℕ)
      → calculate_fees_for_transaction n tx signs pending rate ≡ ok (total, base)
      → (base ≡ own_fee tx) × (total ≡ n.fee rate (estimate_final_tx_vsize n tx signs + pending))
  unfolding calculate_fees_for_transaction safe_add
  fees-ok tx pending total base h = ground arith

  -- What is available leaves both fees paid.
  available-ok :
      (total_btc_amount available fee : ℕ) (tx : Transaction)
      → spent tx < u64_mod
      → available_for_change n signs statuses rate total_btc_amount tx ≡ ok (available, fee)
      → (fee ≡ own_fee tx)
        × (spent tx + available + own_fee tx ≤ total_btc_amount)
        × (spent tx
              + available
              + n.fee rate (estimate_final_tx_vsize n tx signs + statuses.total_size)
            ≤ total_btc_amount + statuses.total_fee)
  unfolding available_for_change calculate_fees_for_transaction safe_add safe_sub
  available-ok total_btc_amount available fee tx small h = ground arith

  module _ (sizes : SizeIgnoresValues n) where
    own_fee-value :
        (tx : Transaction) (o : TxOut) (value : ℕ)
        → own_fee (push_output (record o { value = value }) tx) ≡ own_fee (push_output o tx)
    unfolding estimate_final_tx_vsize
    own_fee-value tx o value =
        ap
          (λ v. n.fee rate (
            (v + ((length signs * witness_weight_bytes n + witness_weight_overhead) % u64_mod) / 4)
            % u64_mod))
          (sizes tx tx.output o value)

    -- The change is taken out again, or has paid the difference of the fees.
    Settled : Script → ℕ → ℕ → Transaction → Transaction → Type 0
    Settled script available fee tx tx' =
        (tx' ≡ tx)
        ⊎ ((value : ℕ) × (dust_limit ≤ value)
            × (tx' ≡ push_output (record { value = value; script_pubkey = script }) tx)
            × (value + own_fee tx' ≤ available + fee))

    pop-push_output : (o : TxOut) (tx : Transaction) → pop_output (push_output o tx) ≡ tx
    pop-push_output o tx = ap (λ p. record tx { output = p.1 }) (pop_vec-append tx.output o)

    last :
        (tx : Transaction) (o : TxOut) (value : ℕ)
        → record tx { output = set_last_value value (tx.output ++ (o ∷ [])) }
          ≡ push_output (record o { value = value }) tx
    last tx o value = ap (λ l. record tx { output = l }) (set_last_value-append value tx.output o)

    paid :
        (tx : Transaction) (o : TxOut) (value : ℕ)
        → own_fee (record tx { output = set_last_value value (tx.output ++ (o ∷ [])) })
          ≡ own_fee (push_output o tx)
    paid tx o value = ap own_fee (last tx o value) ∙ own_fee-value tx o value

    settle_change-Settled :
        (script : Script) (available fee difference : ℕ) (tx : Transaction)
        → own_fee (push_output (record { value = available; script_pubkey = script }) tx)
          ≡ difference + fee
        → Settled script available fee tx
            (settle_change
              (safe_sub u64_mod available difference)
              (push_output (record { value = available; script_pubkey = script }) tx)).1
    unfolding Settled settle_change safe_sub
    settle_change-Settled script available fee difference tx own =
        let o : TxOut = record { value = available; script_pubkey = script } in
        elim (Bool-cases (leb difference available)) [
          | inr poor ↦ rw poor (inl (pop-push_output o tx))
          | inl rich ↦ elim (Bool-cases (leb dust_limit (available - difference))) [
            | inr dust ↦ rw (rich, dust) (inl (pop-push_output o tx))
            | inl keep ↦
                rw (rich, keep)
                  (inr (
                    available - difference,
                    ground arith,
                    last tx o (available - difference),
                    omega (
                      arith,
                      leb→le difference available rich,
                      own,
                      paid tx o (available - difference),
                    ),
                  ))
          ]
        ]

    difference-ok : (new fee d : ℕ) → safe_sub u64_mod new fee ≡ ok d → new ≡ d + fee
    unfolding safe_sub
    difference-ok new fee d h = ground arith

    pay_for_change-Settled :
        (script : Script) (available fee : ℕ) (tx : Transaction)
        → (pay_for_change n signs statuses rate script available fee tx).0 ≡ ok tt
        → Settled script available fee tx
            (pay_for_change n signs statuses rate script available fee tx).1
    unfolding pay_for_change
    pay_for_change-Settled script available fee tx h =
        let tx' : Transaction =
          push_output (record { value = available; script_pubkey = script }) tx in
        elim (Result-cases (calculate_fees_for_transaction n tx' signs statuses.total_size rate)) [
          | inl ((total, new), fees) ↦ elim (Result-cases (safe_sub u64_mod new fee)) [
            | inl (d, less) ↦
                rw (fees, less)
                  (settle_change-Settled script available fee d tx (
                    sym (fees-ok tx' statuses.total_size total new fees).0
                    ∙ difference-ok new fee d less))
            | inr (inl (x, failed)) ↦ absurd (cc (rw (fees, failed) at h))
            | inr (inr panic) ↦ absurd (cc (rw (fees, panic) at h))
          ]
          | inr (inl (x, failed)) ↦ absurd (cc (rw failed at h))
          | inr (inr panic) ↦ absurd (cc (rw panic at h))
        ]

    add_change-Settled :
        (script : Script) (available fee : ℕ) (tx : Transaction)
        → (add_change n signs statuses rate (some script) available fee tx).0 ≡ ok tt
        → Settled script available fee tx
            (add_change n signs statuses rate (some script) available fee tx).1
    unfolding add_change Settled
    add_change-Settled script available fee tx h = elim (Bool-cases (leb dust_limit available)) [
      | inl e ↦ rw e (pay_for_change-Settled script available fee tx (rw e at h))
      | inr e ↦ rw e (inl refl)
    ]

-- what the call may have done to the outputs
abbrev pub WithChange : Option Script → Transaction → Transaction → Type 0
WithChange script tx tx' =
    (tx' ≡ tx)
    ⊎ ((to : Script) × (value : ℕ) × (script ≡ some to)
        × (dust_limit ≤ value)
        × (tx' ≡ push_output (record { value = value; script_pubkey = to }) tx))

module _ (n : Node) (signs : List InputToSign) (statuses : MempoolInfo) (rate : FeeRate)
    (sizes : SizeIgnoresValues n) where
  conclude :
      (total_btc_amount available fee : ℕ) (script : Script) (tx tx' : Transaction)
      → spent tx < u64_mod
      → available_for_change n signs statuses rate total_btc_amount tx ≡ ok (available, fee)
      → Settled n signs statuses rate sizes script available fee tx tx'
      → WithChange (some script) tx tx'
        × (spent tx' + own_fee n signs statuses rate tx' ≤ total_btc_amount)
  unfolding Settled
  conclude total_btc_amount available fee script tx tx' small quote (inl same) =
      let (_, covered, _) =
        available-ok n signs statuses rate total_btc_amount available fee tx small quote in
      rw same (inl refl, omega (arith, covered))
  conclude total_btc_amount available fee script tx tx' small quote
        (inr (value, dust, same, paid)) =
      let (base, covered, _) =
        available-ok n signs statuses rate total_btc_amount available fee tx small quote in
      let o : TxOut = record { value = value; script_pubkey = script } in
      (
        inr (script, value, refl, dust, same),
        omega (
          arith,
          covered,
          base,
          paid,
          ap spent same ∙ sum_by-append (λ o. o.value) tx.output (o ∷ []),
        ),
      )

  -- A call that succeeds leaves the outputs as they were, or adds one output of at least the dust limit
  -- to the change script; and with it the inputs still pay for all outputs and for the fee of the
  -- transaction that results. (The outputs sum up below 2^64, and the vsize does not depend on amounts.)
  pub adjust_transaction_to_pay_fees-pays :
      (total_btc_amount : ℕ) (script : Option Script) (tx : Transaction)
      → spent tx < u64_mod
      → (adjust_transaction_to_pay_fees n signs statuses rate total_btc_amount script tx).0 ≡ ok tt
      → WithChange script tx
          (adjust_transaction_to_pay_fees n signs statuses rate total_btc_amount script tx).1
        × (spent (adjust_transaction_to_pay_fees n signs statuses rate total_btc_amount script tx).1
              + own_fee n signs statuses rate
                  (adjust_transaction_to_pay_fees n signs statuses rate total_btc_amount script
                    tx).1
            ≤ total_btc_amount)
  unfolding adjust_transaction_to_pay_fees add_change
  adjust_transaction_to_pay_fees-pays total_btc_amount script tx small h =
      elim (Result-cases (available_for_change n signs statuses rate total_btc_amount tx)) [
        | inl ((available, fee), quote) ↦
            rw quote (changed script available fee quote (rw quote at h))
        | inr (inl (x, failed)) ↦ absurd (cc (rw failed at h))
        | inr (inr panic) ↦ absurd (cc (rw panic at h))
      ]
    where
      changed :
          (script : Option Script) (available fee : ℕ)
          → available_for_change n signs statuses rate total_btc_amount tx ≡ ok (available, fee)
          → (add_change n signs statuses rate script available fee tx).0 ≡ ok tt
          → WithChange script tx (add_change n signs statuses rate script available fee tx).1
            × (spent (add_change n signs statuses rate script available fee tx).1
                  + own_fee n signs statuses rate
                      (add_change n signs statuses rate script available fee tx).1
                ≤ total_btc_amount)
      changed none available fee quote h =
          let (_, covered, _) =
            available-ok n signs statuses rate total_btc_amount available fee tx small quote in
          (inl refl, omega (arith, covered))
      changed (some to) available fee quote h =
          conclude total_btc_amount available fee to tx
            (add_change n signs statuses rate (some to) available fee tx).1 small quote
            (add_change-Settled n signs statuses rate sizes to available fee tx h)

refused :
    (n : Node) (signs : List InputToSign) (statuses : MempoolInfo) (rate : FeeRate)
    (total_btc_amount : ℕ) (tx : Transaction)
    → spent tx < u64_mod
    → estimate_final_tx_vsize n tx signs + statuses.total_size < u64_mod
    → total_btc_amount < spent tx + own_fee n signs statuses rate tx
    → available_for_change n signs statuses rate total_btc_amount tx
      ≡ err not_enough_amount_to_cover_fees
unfolding available_for_change calculate_fees_for_transaction safe_add safe_sub
refused n signs statuses rate total_btc_amount tx small size short = ground arith

-- Inputs that do not pay for the outputs and the fee are refused, and the transaction is left as it was.
-- (The outputs sum up below 2^64, and the size with the pending ancestors fits in 64 bits.)
pub adjust_transaction_to_pay_fees_short :
    (n : Node) (signs : List InputToSign) (statuses : MempoolInfo) (rate : FeeRate)
    (total_btc_amount : ℕ) (script : Option Script) (tx : Transaction)
    → spent tx < u64_mod
    → estimate_final_tx_vsize n tx signs + statuses.total_size < u64_mod
    → total_btc_amount < spent tx + own_fee n signs statuses rate tx
    → adjust_transaction_to_pay_fees n signs statuses rate total_btc_amount script tx
      ≡ (err not_enough_amount_to_cover_fees, tx)
unfolding adjust_transaction_to_pay_fees
adjust_transaction_to_pay_fees_short n signs statuses rate total_btc_amount script tx small size
      short =
    rw (refused n signs statuses rate total_btc_amount tx small size short) refl
