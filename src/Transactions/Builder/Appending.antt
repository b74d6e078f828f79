-- ===== src/Transactions/Builder/Appending.antt =====
-- Appending an input: `add_tx_input` and `add_user_tx_input`.
use saturn_crates.Prelude.{
  ℕ, ◌+◌, ◌%◌, ◌≤◌, ◌<◌, ◌≡◌, refl, append-nil, ap, ap₂, sym, ◌∙◌, List, [], ◌∷◌, ◌++◌, some, ok,
  err, leb, arith, length, All-append, Bool-cases, length-append, inl, inr, le→leb,
}
use mathlib.Core.Option
use saturn_crates.SafeMath.{u32_mod, u64_mod}
use saturn_crates.Collections.FixedList
use saturn_crates.Collections.FixedList.{FixedList}
use saturn_crates.Collections.FixedSet
use saturn_crates.Transactions.Chain.{TxIn, InputToSign, TxStatus}
use saturn_crates.Transactions.Errors.{input_to_sign_list_full}
use saturn_crates.Transactions.Builder.State.{
  TransactionBuilder, UtxoInfo, Caps, unsigned_input, push_input_to_sign, push_input, add_btc,
  add_runes,
}
use saturn_crates.Transactions.Builder.Inputs.{add_tx_input, add_user_tx_input}
use saturn_crates.Transactions.Builder.Frames.{
  statuses_after, statuses_after-inputs_to_sign, add_tx_status_frame, get_elem?-append_self,
}
use saturn_crates.Transactions.Builder.Signers.{signatures, signatures-append, signatures-input}
use saturn_crates.Transactions.Builder.Tracking.{IsValid, signed, Spends, spend}

module _ (c : Caps) (b : TransactionBuilder) (utxo : UtxoInfo) (status : TxStatus) where
  abbrev appended : TxIn → TransactionBuilder
  appended i = record b {
    transaction = record b.transaction { input = b.transaction.input ++ (i ∷ []) };
    tx_statuses = statuses_after utxo status b;
    total_btc_input = (b.total_btc_input + utxo.value) % u64_mod;
  }

  appended-range :
      (i : TxIn) → IsValid c b → IsValid c (appended i) × (signed (appended i) ≡ signed b)
  appended-range i v =
      let (same, range) =
        signatures-input b.transaction.input i (FixedList.as_slice b.inputs_to_sign) v.range in
      (record { signs = v.signs; accounts = v.accounts; runes = v.runes; range = range }, same)

  add_user_tx_input_run :
      (i : TxIn)
      → add_user_tx_input c utxo status i b
        ≡ add_runes c (FixedSet.as_slice utxo.runes) (appended i)
  unfolding add_user_tx_input push_input add_btc
  add_user_tx_input_run i = rw (add_tx_status_frame utxo status b)

  -- Where the call succeeds, the input that is given stands behind the others, and nothing else of the
  -- transaction changes; the UTXO adds its value, its runes and its status, and no key signs for more.
  pub add_user_tx_input-Spends :
      (i : TxIn)
      → IsValid c b
      → (add_user_tx_input c utxo status i b).0 ≡ ok tt
      → Spends c b utxo status
          (b.transaction.input ++ (i ∷ []))
          []
          (add_user_tx_input c utxo status i b).1
  add_user_tx_input-Spends i v done =
      let run = add_user_tx_input_run i in
      let (valid, same) = appended-range i v in
      rw run (
        spend c b utxo status (b.transaction.input ++ (i ∷ [])) [] (appended i) valid refl refl
          (same ∙ sym (append-nil (signed b))) refl refl (rw run at done))

  module _ (signer : ℕ) where
    abbrev added_entry : InputToSign
    added_entry = record { index = length b.transaction.input % u32_mod; signer = signer }

    abbrev added : TransactionBuilder
    added = record (appended (unsigned_input utxo.meta)) {
      inputs_to_sign = (FixedList.push c.max_inputs_to_sign b.inputs_to_sign added_entry).1;
    }

    pub add_tx_input_room :
        IsValid c b
        → b.inputs_to_sign.len < c.max_inputs_to_sign
        → add_tx_input c utxo status signer b ≡ add_runes c (FixedSet.as_slice utxo.runes) added
    unfolding add_tx_input push_input_to_sign push_input add_btc
    add_tx_input_room v room =
        let l = (FixedList.push c.max_inputs_to_sign b.inputs_to_sign added_entry).1 in
        rw (
          (FixedList.Laws.push_fits c.max_inputs_to_sign b.inputs_to_sign added_entry v.signs
              room).0,
          add_tx_status_frame utxo status (record b { inputs_to_sign = l }),
          statuses_after-inputs_to_sign utxo status b l,
        )

    -- When the list of inputs to sign is full `add_tx_input` fails and changes nothing.
    pub add_tx_input_full :
        c.max_inputs_to_sign ≤ b.inputs_to_sign.len
        → add_tx_input c utxo status signer b ≡ (err input_to_sign_list_full, b)
    unfolding add_tx_input push_input_to_sign FixedList.push
    add_tx_input_full full = rw (le→leb c.max_inputs_to_sign b.inputs_to_sign.len full)

    added-signed :
        IsValid c b
        → length b.transaction.input + 1 < u32_mod
        → b.inputs_to_sign.len < c.max_inputs_to_sign
        → IsValid c added × (signed added ≡ signed b ++ ((some utxo.meta, signer) ∷ []))
    added-signed v small room =
        let here : InputToSign = record { index = length b.transaction.input; signer = signer } in
        let kk : added_entry ≡ here =
          ap (λ n. record { index = n; signer = signer }) (omega arith) in
        let (done, grown, slice) =
          FixedList.Laws.push_fits c.max_inputs_to_sign b.inputs_to_sign added_entry v.signs room in
        let slices = slice ∙ ap (λ e. before ++ (e ∷ [])) kk in
        let (same, ranges) =
          signatures-input b.transaction.input (unsigned_input utxo.meta) before v.range in
        (
          record {
            signs =
                FixedList.Laws.push-IsValid c.max_inputs_to_sign b.inputs_to_sign added_entry
                  v.signs;
            accounts = v.accounts;
            runes = v.runes;
            range = rw slices (
                All-append (λ i. i.index < length inputs) before (here ∷ []) ranges
                  (
                    omega
                        (arith, length-append b.transaction.input (unsigned_input utxo.meta ∷ [])),
                    tt,
                  ));
          },
          ap (signatures inputs) slices
              ∙ signatures-append inputs before (here ∷ [])
              ∙ ap₂ ◌++◌ same (
                  ap (λ o. (Option.map (λ t. t.previous_output) o, signer) ∷ [])
                    (get_elem?-append_self b.transaction.input (unsigned_input utxo.meta))),
        )
      where
        before : List InputToSign
        before = FixedList.as_slice b.inputs_to_sign

        inputs : List TxIn
        inputs = b.transaction.input ++ (unsigned_input utxo.meta ∷ [])

    -- Where the call succeeds, an input without a signature that spends the UTXO stands behind the others,
    -- and nothing else of the transaction changes; the UTXO adds its value, its runes, its status and one
    -- key that signs, for its outpoint. (The number of inputs fits in 32 bits.)
    pub add_tx_input-Spends :
        IsValid c b
        → length b.transaction.input + 1 < u32_mod
        → (add_tx_input c utxo status signer b).0 ≡ ok tt
        → Spends c b utxo status
            (b.transaction.input ++ (unsigned_input utxo.meta ∷ []))
            ((some utxo.meta, signer) ∷ [])
            (add_tx_input c utxo status signer b).1
    add_tx_input-Spends v small done =
        elim (Bool-cases (leb c.max_inputs_to_sign b.inputs_to_sign.len)) [
          | inl full ↦ absurd (cc (add_tx_input_full (ground arith)))
          | inr room ↦
              let run = add_tx_input_room v (ground arith) in
              let (valid, signs) = added-signed v small (ground arith) in
              rw run (
                spend c b utxo status (b.transaction.input ++ (unsigned_input utxo.meta ∷ []))
                  ((some utxo.meta, signer) ∷ []) added valid refl refl signs refl refl
                  (rw run at done))
        ]
