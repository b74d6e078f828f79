-- ===== src/Transactions/Examples/Reserving.antt =====
-- How UTXOs are selected and consolidated for the builder.
use mathlib.Core.List.{Perm}
use saturn_crates.Prelude.{
  length, ℕ, ◌*◌, ◌≤◌, ◌≡◌, refl, [], ◌∷◌, ◌++◌, none, some, ok, err, arith,
}
use saturn_crates.SafeMath.{u64_mod}
use saturn_crates.Collections.FixedList
use saturn_crates.Transactions.Chain.{InputToSign}
use saturn_crates.Transactions.Builder.Inputs.{add_tx_input}
use saturn_crates.Prelude.Sort.{sort_by, place}
use saturn_crates.Collections.FixedList.{FixedList}
use saturn_crates.Collections.FixedList.Trait.{list_push_pop, list_push_pop-IsPushPop}
use saturn_crates.Transactions.Builder.State.{
  push_input_to_sign, add_tx_status, push_input, add_btc, add_runes,
}
use saturn_crates.Transactions.Builder.Select.{
  select, sorted_indices, find_btc_in_program_utxos, range_from,
}
use saturn_crates.Transactions.Builder.Select.Order.{InOrder, chosen_at, sorted_indices_lem}
use saturn_crates.Transactions.Builder.Select.Enough.{
  Selection, find_btc_in_program_utxos-Selection,
}
use saturn_crates.Transactions.Fees.{varint_len, witness_weight_bytes, estimate_final_tx_total_size}
use saturn_crates.Transactions.Reserve.{
  NewPotentialInputsAndOutputs, sign, add_inputs, add_outputs, add_reserved_inputs,
  add_reserved_inputs_and_outputs, rollback_potential_inputs_and_outputs,
  estimate_tx_size_with_additional_inputs_outputs,
}
use saturn_crates.Transactions.Reserve.Reserved.{planned, new_signs}
use saturn_crates.Transactions.Reserve.Rollback.{estimate_tx_size-restores}
use saturn_crates.Prelude.{◌⊎◌, ◌%◌}
use saturn_crates.Collections.PushPop
use saturn_crates.Collections.PushPop.{PushPop}
use saturn_crates.Transactions.Errors.{input_to_sign_list_full}
use saturn_crates.Transactions.Consolidation.{
  safe_add_input_to_transaction, consolidate, calculate_extra_tx_size_for_consolidation,
  add_consolidation_utxos,
}
use saturn_crates.Transactions.Consolidation.Joining.{
  Joined, Kept, safe_add_input_to_transaction_lem,
}
use saturn_crates.Transactions.Consolidation.Chosen.{Chosen, add_consolidation_utxos-Chosen}
use saturn_crates.Transactions.Examples.{user_input, caps, one_input, node, payment, coins, draft}

find_btc_in_program_utxos-Selection_example :
    Selection coins 6000 0 (sorted_indices coins) (1 ∷ []) 10000 × (6000 ≤ 10000)
unfolding find_btc_in_program_utxos select sorted_indices sort_by place add_tx_input
    push_input_to_sign add_tx_status push_input add_btc add_runes
find_btc_in_program_utxos-Selection_example =
    find_btc_in_program_utxos-Selection coins caps 60 6000 one_input (1 ∷ []) 10000 (omega arith)
      refl

sorted_indices_lem_example :
    Perm (sorted_indices coins) (range_from 0 (length coins))
    × InOrder (chosen_at coins (sorted_indices coins))
sorted_indices_lem_example = sorted_indices_lem coins

abbrev reserve : NewPotentialInputsAndOutputs
reserve = record {
  inputs = some (record { count = 1; item = user_input; signer = some 70 });
  outputs = record { count = 2; item = record { value = 546; script_pubkey = 1 ∷ [] } } ∷ [];
}

estimate_tx_size-restores_example :
    ((estimate_tx_size_with_additional_inputs_outputs
        (list_push_pop 2 InputToSign)
        node
        reserve
        draft).1.transaction
      ≡ payment)
    × (FixedList.as_slice
          (estimate_tx_size_with_additional_inputs_outputs
            (list_push_pop 2 InputToSign)
            node
            reserve
            draft).1.inputs_to_sign
        ≡ FixedList.as_slice one_input.inputs_to_sign)
    × FixedList.Laws.IsValid 2
        (estimate_tx_size_with_additional_inputs_outputs
          (list_push_pop 2 InputToSign)
          node
          reserve
          draft).1.inputs_to_sign
    × (591
        ≡ estimate_final_tx_total_size node
            (planned reserve payment)
            (FixedList.as_slice one_input.inputs_to_sign ++ new_signs reserve.inputs 1))
unfolding estimate_tx_size_with_additional_inputs_outputs add_reserved_inputs_and_outputs
    add_reserved_inputs add_inputs sign add_outputs estimate_final_tx_total_size
    witness_weight_bytes varint_len list_push_pop list_push_pop-IsPushPop FixedList.push
    rollback_potential_inputs_and_outputs
estimate_tx_size-restores_example =
    estimate_tx_size-restores (list_push_pop 2 InputToSign) (list_push_pop-IsPushPop 2 InputToSign)
      node reserve draft 591 (record { sized = refl; bounded = omega arith }) refl

abbrev outputs_only : NewPotentialInputsAndOutputs
outputs_only = record { inputs = none; outputs = reserve.outputs }

abbrev places : PushPop (FixedList InputToSign) InputToSign
places = list_push_pop 2 InputToSign

draft-IsValid : (list_push_pop-IsPushPop 2 InputToSign).IsValid draft.inputs_to_sign
unfolding list_push_pop-IsPushPop
draft-IsValid = record { sized = refl; bounded = omega arith }

safe_add_input_to_transaction_lem_example :
    (((places.push draft.inputs_to_sign (record { index = 1; signer = 60 })).0 ≡ ok tt)
      × Joined places
          (list_push_pop-IsPushPop 2 InputToSign)
          node
          outputs_only
          60
          user_input
          draft
          (safe_add_input_to_transaction places node outputs_only 60 user_input draft))
    ⊎ (((places.push draft.inputs_to_sign (record { index = 1; signer = 60 })).0 ≡ err PushPop.full)
        × ((safe_add_input_to_transaction places node outputs_only 60 user_input draft).0
            ≡ err input_to_sign_list_full)
        × Kept places
            (list_push_pop-IsPushPop 2 InputToSign)
            node
            outputs_only
            draft
            (safe_add_input_to_transaction places node outputs_only 60 user_input draft).1)
safe_add_input_to_transaction_lem_example =
    safe_add_input_to_transaction_lem places (list_push_pop-IsPushPop 2 InputToSign) node
      outputs_only 60 user_input draft draft-IsValid tt

add_consolidation_utxos-Chosen_example :
    (added : ℕ) × Chosen places
      (list_push_pop-IsPushPop 2 InputToSign)
      node
      outputs_only
      60
      5
      coins
      0
      0
      draft
      (
        (add_consolidation_utxos places node outputs_only 60 coins 5 87 draft).0.0,
        added,
        (add_consolidation_utxos places node outputs_only 60 coins 5 87 draft).1,
      )
    × ((add_consolidation_utxos places node outputs_only 60 coins 5 87 draft).0.1
        ≡ (87 * added) % u64_mod)
add_consolidation_utxos-Chosen_example =
    add_consolidation_utxos-Chosen places (list_push_pop-IsPushPop 2 InputToSign) node outputs_only
      60 coins 5 87 draft draft-IsValid tt

-- The old coin joins, and the new one does not.
consolidated : (add_consolidation_utxos places node outputs_only 60 coins 5 87 draft).0 ≡ (3000, 87)
unfolding add_consolidation_utxos consolidate safe_add_input_to_transaction
    calculate_extra_tx_size_for_consolidation estimate_tx_size_with_additional_inputs_outputs
    add_reserved_inputs_and_outputs add_reserved_inputs add_inputs sign add_outputs
    estimate_final_tx_total_size witness_weight_bytes varint_len list_push_pop FixedList.push
    rollback_potential_inputs_and_outputs
consolidated = refl
