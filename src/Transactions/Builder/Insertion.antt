-- ===== src/Transactions/Builder/Insertion.antt =====
-- Inserting an input: `insert_tx_input` keeps every key signing for the outpoint that it signed for.
use saturn_crates.Prelude.{
  ℕ, ◌+◌, ◌%◌, ◌≤◌, ◌<◌, ◌≡◌, refl, ap, ap₂, ◌∙◌, List, [], ◌∷◌, ◌++◌, some, ok, err, leb, arith,
  length, map, All-append, Bool-cases, inl, inr, le→leb,
}
use mathlib.Core.Option
use saturn_crates.SafeMath.{u32_mod, u64_mod}
use saturn_crates.Collections.FixedList
use saturn_crates.Collections.FixedList.{FixedList}
use saturn_crates.Collections.FixedSet
use saturn_crates.Transactions.Chain.{TxIn, InputToSign, TxStatus}
use saturn_crates.Transactions.Errors.{input_to_sign_list_full}
use saturn_crates.Transactions.Builder.State.{
  TransactionBuilder, UtxoInfo, Caps, insert_at, shift, unsigned_input, push_input_to_sign,
  insert_input, shift_inputs_to_sign, add_btc, add_runes,
}
use saturn_crates.Transactions.Builder.Inputs.{insert_tx_input}
use saturn_crates.Transactions.Builder.Frames.{
  statuses_after, add_tx_status_frame, length-insert_at, get_elem?-insert_at_self,
}
use saturn_crates.Transactions.Builder.Signers.{signatures, signatures-append, signatures-shift}
use saturn_crates.Transactions.Builder.Tracking.{IsValid, signed, Spends, spend}

-- The list of inputs to sign after the shift and the push of a new entry.
shift_and_push :
    (size k : ℕ) (l : FixedList InputToSign) (e : InputToSign)
    → FixedList.Laws.IsValid size l
    → l.len < size
    → let (r, l') = FixedList.push size (FixedList.iter_mut (shift k) l) e in
      (r ≡ ok tt)
      × FixedList.Laws.IsValid size l'
      × (FixedList.as_slice l' ≡ map (shift k) (FixedList.as_slice l) ++ (e ∷ []))
unfolding FixedList.iter_mut
shift_and_push size k l e v room =
    let (valid, slice) = FixedList.Laws.iter_mut-IsValid size (shift k) l v in
    let (done, grown, pushed) =
      FixedList.Laws.push_fits size (FixedList.iter_mut (shift k) l) e valid room in
    (
      done,
      FixedList.Laws.push-IsValid size (FixedList.iter_mut (shift k) l) e valid,
      pushed ∙ ap (λ t. t ++ (e ∷ [])) slice,
    )

module _ (c : Caps) (b : TransactionBuilder) (utxo : UtxoInfo) (status : TxStatus)
    (signer k : ℕ) where
  abbrev entry : InputToSign
  entry = record { index = k % u32_mod; signer = signer }

  abbrev inserted : TransactionBuilder
  inserted = record b {
    transaction = record b.transaction {
      input = insert_at k (unsigned_input utxo.meta) b.transaction.input;
    };
    tx_statuses = statuses_after utxo status b;
    inputs_to_sign =
        (FixedList.push c.max_inputs_to_sign
          (FixedList.iter_mut (shift (k % u32_mod)) b.inputs_to_sign) entry).1;
    total_btc_input = (b.total_btc_input + utxo.value) % u64_mod;
  }

  insert_tx_input_room :
      IsValid c b
      → k ≤ length b.transaction.input
      → b.inputs_to_sign.len < c.max_inputs_to_sign
      → insert_tx_input c k utxo status signer b
        ≡ add_runes c (FixedSet.as_slice utxo.runes) inserted
  unfolding insert_tx_input insert_input shift_inputs_to_sign push_input_to_sign add_btc
  insert_tx_input_room v h room = rw (
    add_tx_status_frame utxo status b,
    le→leb k (length b.transaction.input) h,
    (shift_and_push c.max_inputs_to_sign (k % u32_mod) b.inputs_to_sign entry v.signs room).0,
  )

  insert_tx_input_full :
      k ≤ length b.transaction.input
      → c.max_inputs_to_sign ≤ b.inputs_to_sign.len
      → (insert_tx_input c k utxo status signer b).0 ≡ err input_to_sign_list_full
  unfolding insert_tx_input insert_input shift_inputs_to_sign push_input_to_sign FixedList.push
      FixedList.iter_mut
  insert_tx_input_full h full = rw (
    add_tx_status_frame utxo status b,
    le→leb k (length b.transaction.input) h,
    le→leb c.max_inputs_to_sign b.inputs_to_sign.len full,
  )

  inserted-signed :
      IsValid c b
      → k ≤ length b.transaction.input
      → length b.transaction.input + 1 < u32_mod
      → b.inputs_to_sign.len < c.max_inputs_to_sign
      → IsValid c inserted × (signed inserted ≡ signed b ++ ((some utxo.meta, signer) ∷ []))
  inserted-signed v h small room =
      let kk : k % u32_mod ≡ k = omega arith in
      let (done, valid, slice) =
        shift_and_push c.max_inputs_to_sign (k % u32_mod) b.inputs_to_sign entry v.signs room in
      let here : InputToSign = record { index = k; signer = signer } in
      let slices =
        slice ∙ ap (λ n. map (shift n) before ++ (record { index = n; signer = signer } ∷ [])) kk in
      let (same, ranges) =
        signatures-shift b.transaction.input (unsigned_input utxo.meta) k small before v.range in
      (
        record {
          signs = valid;
          accounts = v.accounts;
          runes = v.runes;
          range = rw slices (
              All-append (λ i. i.index < length inputs) (map (shift k) before) (here ∷ []) ranges
                (
                  omega (arith, length-insert_at k (unsigned_input utxo.meta) b.transaction.input),
                  tt,
                ));
        },
        ap (signatures inputs) slices
            ∙ signatures-append inputs (map (shift k) before) (here ∷ [])
            ∙ ap₂ ◌++◌ same (
                ap (λ o. (Option.map (λ t. t.previous_output) o, signer) ∷ [])
                  (get_elem?-insert_at_self k (unsigned_input utxo.meta) b.transaction.input h)),
      )
    where
      before : List InputToSign
      before = FixedList.as_slice b.inputs_to_sign

      inputs : List TxIn
      inputs = insert_at k (unsigned_input utxo.meta) b.transaction.input

  -- Where the call succeeds, the new input stands at the index, every key signs for the outpoint that it
  -- signed for, and one more key signs, for the new outpoint; the UTXO adds its value, its runes and its
  -- status. (The index is in range and the number of inputs fits in 32 bits.)
  pub insert_tx_input-Spends :
      IsValid c b
      → k ≤ length b.transaction.input
      → length b.transaction.input + 1 < u32_mod
      → (insert_tx_input c k utxo status signer b).0 ≡ ok tt
      → Spends c b utxo status
          (insert_at k (unsigned_input utxo.meta) b.transaction.input)
          ((some utxo.meta, signer) ∷ [])
          (insert_tx_input c k utxo status signer b).1
  insert_tx_input-Spends v h small done =
      elim (Bool-cases (leb c.max_inputs_to_sign b.inputs_to_sign.len)) [
        | inl full ↦ absurd (cc (insert_tx_input_full h (ground arith)))
        | inr room ↦
            let run = insert_tx_input_room v h (ground arith) in
            let (valid, signs) = inserted-signed v h small (ground arith) in
            rw run (
              spend c b utxo status (insert_at k (unsigned_input utxo.meta) b.transaction.input)
                ((some utxo.meta, signer) ∷ []) inserted valid refl refl signs refl refl
                (rw run at done))
      ]
