-- ===== src/Shards/Modified.antt =====
-- saturn-account-shards/src/update.rs, as far as it reads a transaction: the UTXOs that it spends and
-- makes, and the runes that its runestone gives them.
pub mod Partition
use saturn_crates.Prelude.{
  ℕ, zero, suc, ◌+◌, ◌-◌, ◌%◌, ◌==◌, List, [], ◌∷◌, ◌++◌, Bool, true, false, Option, none, some,
  Result, ok, err, panicked, leb, ltb, if◌then◌else◌, length, get_elem?, set, any, try_,
}
use saturn_crates.Prelude.Exec.{M, ◌>>=◌, ◌>>◌, return, fail, lift, get, ok_or}
use saturn_crates.SafeMath.{u32_mod, u128_mod, checked_sub}
use saturn_crates.Collections.FixedList
use saturn_crates.Collections.FixedSet
use saturn_crates.Collections.FixedSet.{position}
use saturn_crates.Collections.PushPop.{pop_vec}
use saturn_crates.Transactions.Chain.{
  Node, UtxoMeta, TxOut, TxIn, Transaction, Script, script_eq, InputToSign, RuneId, RuneAmount,
  rune_eq, zero_rune, FeeRate,
}
use saturn_crates.Transactions.Runes.{RuneSet, add_amount, is_rune}
use saturn_crates.Transactions.Builder.State.{UtxoInfo, Caps, Edict, Runestone, TransactionBuilder}
use saturn_crates.Shards.Errors.{
  StateShardError, of_set_error, output_edict_is_not_in_transaction, rune_amount_addition_overflow,
  not_enough_rune_in_shards, runestone_pointer_is_not_in_transaction,
}
use saturn_crates.Shards.Set.{StateShard, ShardSet}
use saturn_crates.Shards.Update.{update_shards_utxos}

-- the loop over the inputs to sign, which panics on an index that is no input
abbrev pub spent_by : List TxIn → List InputToSign → Result StateShardError (List UtxoMeta)
spent_by inputs [] = ok []
spent_by inputs (i ∷ is) = elim (get_elem? inputs i.index) [
  | none ↦ panicked
  | some input ↦ try_ (spent_by inputs is) λ metas. ok (input.previous_output ∷ metas)
]

-- the loop over the outputs, from an index on; `U::new` leaves the runes empty
abbrev pub program_outputs : ℕ → Script → ℕ → ℕ → List TxOut → List UtxoInfo
program_outputs max_runes script txid index [] = []
program_outputs max_runes script txid index (o ∷ os) =
    let rest = program_outputs max_runes script txid (index + 1) os in
    if script_eq o.script_pubkey script
    then record {
      meta = record { txid = txid; vout = index % u32_mod };
      value = o.value;
      runes = FixedSet.new max_runes zero_rune;
      needs_consolidation = none;
    }
      ∷ rest
    else rest

unfoldable pub get_modified_program_utxos_in_transaction :
    Node
    → ℕ
    → Script
    → Transaction
    → List InputToSign
    → Result StateShardError (List UtxoMeta × List UtxoInfo)
unfolding FixedSet.new
get_modified_program_utxos_in_transaction node max_runes script tx signs =
    try_ (spent_by tx.input signs)
      λ spent. ok (spent, program_outputs max_runes script (node.compute_txid tx) 0 tx.output)

-- the two `&mut` arguments
pub record Books : Type 0 where
  pub outputs : List UtxoInfo
  pub remaining : RuneSet

module _ (max_runes : ℕ) where
  -- `insert_or_modify` on the runes of the output at `pos`
  unfoldable pub credit : ℕ → RuneAmount → M Books StateShardError (Unit {0})
  unfolding FixedSet.insert_or_modify
  credit pos rune b = elim (get_elem? b.outputs pos) [
    | none ↦ (err output_edict_is_not_in_transaction, b)
    | some u ↦
        let (r, runes) =
          FixedSet.insert_or_modify rune_eq max_runes of_set_error u.runes rune
            (add_amount rune_amount_addition_overflow rune.amount) in
        (r, record b { outputs = set b.outputs pos (record u { runes = runes }) })
  ]

  abbrev pub less_amount : ℕ → RuneAmount → Result StateShardError RuneAmount
  less_amount amount r = elim (checked_sub u128_mod r.amount amount) [
    | none ↦ err not_enough_rune_in_shards
    | some left ↦ ok (record r { amount = left })
  ]

  -- `find_mut` of the rune in what remains
  unfoldable pub debit : RuneAmount → M Books StateShardError (Unit {0})
  unfolding FixedSet.find_mut
  debit rune b =
      let (r, s) = FixedSet.find_mut (is_rune rune.id) (less_amount rune.amount) b.remaining in
      (r, record b { remaining = s })

  -- the loop over the edicts
  unfoldable pub apply_edicts : List Edict → M Books StateShardError (Unit {0})
  unfolding credit debit
  apply_edicts [] = return tt
  apply_edicts (e ∷ es) = do
    b ← get
    pos ← lift (
        ok_or output_edict_is_not_in_transaction
          (position (λ u. u.meta.vout == e.output) b.outputs))
    credit pos (record { id = e.id; amount = e.amount })
    debit (record { id = e.id; amount = e.amount })
    apply_edicts es

  -- the loop over what remains, when the runestone has a pointer
  unfoldable pub apply_pointer : ℕ → List RuneAmount → M Books StateShardError (Unit {0})
  unfolding credit
  apply_pointer pointer [] = return tt
  apply_pointer pointer (r ∷ rs) = do
    b ← get
    if ltb 0 r.amount
        then (do
          pos ← lift (
              ok_or runestone_pointer_is_not_in_transaction
                (position (λ u. u.meta.vout == pointer) b.outputs))
          credit pos r)
        else return tt
    apply_pointer pointer rs

  unfoldable pub settle_remaining : Option ℕ → List RuneAmount → M Books StateShardError (Unit {0})
  unfolding apply_pointer
  settle_remaining none rs =
      if any (λ r. ltb 0 r.amount) rs
      then fail runestone_pointer_is_not_in_transaction
      else return tt
  settle_remaining (some pointer) rs = apply_pointer pointer rs

-- `Vec::swap_remove` at an index in range
abbrev pub swapped : ℕ → Option UtxoInfo → List UtxoInfo → List UtxoInfo
swapped i none rest = rest
swapped i (some last) rest = if ltb i (length rest) then set rest i last else rest

abbrev pub swap_remove : ℕ → List UtxoInfo → List UtxoInfo
swap_remove i us = let (last, rest) = pop_vec us in swapped i last rest

-- The loop from the end that takes out the outputs with runes: these, last first, and the others.
unfoldable pub split_runes :
    ℕ → List UtxoInfo → Result StateShardError (List UtxoInfo × List UtxoInfo)
unfolding pop_vec
split_runes zero us = ok ([], us)
split_runes (suc i) us = elim (get_elem? us i) [
  | none ↦ panicked
  | some u ↦
      let taken = split_runes i (swap_remove i us) in
      let left = split_runes i us in
      if ltb 0 u.runes.len then (try_ taken λ t. ok (u ∷ t.0, t.1)) else left
]

abbrev pub reverse : List UtxoInfo → List UtxoInfo
reverse [] = []
reverse (u ∷ us) = reverse us ++ (u ∷ [])

-- The rune UTXOs are returned, and the other outputs stay in `new_program_outputs`.
unfoldable pub update_modified_program_utxos_with_rune_amount :
    ℕ → Runestone → M Books StateShardError (List UtxoInfo)
unfolding apply_edicts settle_remaining split_runes
update_modified_program_utxos_with_rune_amount max_runes runestone = do
  apply_edicts max_runes runestone.edicts
  b ← get
  settle_remaining max_runes runestone.pointer (FixedSet.as_slice b.remaining)
  after ← get
  (rune_utxos, rest) ← lift (split_runes (length after.outputs) after.outputs)
  (λ s. (ok (reverse rune_utxos), record s { outputs = rest }))

-- The builder keeps what remains of the runes; an error keeps what was changed before it.
unfoldable pub update_shards_after_transaction :
    {S : Type 0}
    → StateShard S
    → Node
    → Caps
    → Script
    → FeeRate
    → M (TransactionBuilder × ShardSet S) StateShardError (Unit {0})
unfolding get_modified_program_utxos_in_transaction update_modified_program_utxos_with_rune_amount
    update_shards_utxos
update_shards_after_transaction t node c script rate (b, shards) =
    let modified =
      get_modified_program_utxos_in_transaction node c.max_runes script b.transaction
        (FixedList.as_slice b.inputs_to_sign) in
    elim modified [
      | panicked ↦ (panicked, (b, shards))
      | err e ↦ (err e, (b, shards))
      | ok (spent, outputs) ↦
          let (r, books) =
            update_modified_program_utxos_with_rune_amount c.max_runes b.runestone
              (record { outputs = outputs; remaining = b.total_rune_inputs }) in
          let b' : TransactionBuilder = record b { total_rune_inputs = books.remaining } in
          elim r [
            | panicked ↦ (panicked, (b', shards))
            | err e ↦ (err e, (b', shards))
            | ok rune_utxos ↦
                let (s, shards') =
                  update_shards_utxos t shards.selected spent rune_utxos books.outputs rate
                    shards in
                (s, (b', shards'))
          ]
    ]
