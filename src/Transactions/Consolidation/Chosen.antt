-- ===== src/Transactions/Consolidation/Chosen.antt =====
-- What consolidation adds to a transaction.
use mathlib.Core.Path.{subst}
use saturn_crates.Prelude.{
  ℕ, ◌+◌, ◌*◌, ◌%◌, ◌<◌, ◌≡◌, refl, sym, ap, ap₂, ◌∙◌, List, [], ◌∷◌, ◌++◌, true, false, length,
  arith, All, Bool-cases, inl, inr, append_assoc, append-nil, length-append,
}
use saturn_crates.Prelude.Sort.{sum_by}
use saturn_crates.SafeMath.{u32_mod, u64_mod}
use saturn_crates.Collections.PushPop.{PushPop, IsPushPop}
use saturn_crates.Transactions.Chain.{Node, Transaction, InputToSign, FeeRate}
use saturn_crates.Transactions.Builder.State.{UtxoInfo, unsigned_input}
use saturn_crates.Transactions.Reserve.{NewPotentialInputsAndOutputs, Draft}
use saturn_crates.Transactions.Consolidation.{
  should_consolidate, in_transaction, safe_add_input_to_transaction, consolidate,
  add_consolidation_utxos, calculate_extra_tx_size_for_consolidation,
}
use saturn_crates.Transactions.Consolidation.Joining.{
  Unsigned, entry, Kept, Grown, safe_add_input_to_transaction_lem,
}
use saturn_crates.Transactions.Consolidation.Picked.{
  Sublist, Fresh, picked, spending, entries_from, UpTo, too_large, no_place, UpTo-cons,
}

module _ {C : Type 0} (p : PushPop C InputToSign) (law : IsPushPop p) (node : Node)
    (n : NewPotentialInputsAndOutputs) where
  -- `chosen` joined the draft.
  pub record Chosen (signer : ℕ) (rate : FeeRate) (utxos : List UtxoInfo) (total added : ℕ)
      (d : Draft C) (out : ℕ × ℕ × Draft C) : Type 0 where
    pub chosen : List UtxoInfo
    pub sublist : Sublist chosen utxos
    pub wanted : All (λ u. should_consolidate rate u ≡ true) chosen
    pub fresh : Fresh d.transaction.input chosen
    pub complete : UpTo p law node n signer chosen out.2 (picked rate d.transaction.input utxos)
    pub inputs :
        out.2.transaction ≡ record d.transaction { input = d.transaction.input ++ spending chosen }
    pub signs :
        p.as_slice out.2.inputs_to_sign
        ≡ p.as_slice d.inputs_to_sign ++ entries_from signer (length d.transaction.input) chosen
    pub valid : law.IsValid out.2.inputs_to_sign
    pub sum : out.0 ≡ (total + sum_by (λ u. u.value) chosen) % u64_mod
    pub count : out.1 ≡ (added + length chosen) % u32_mod

  none-Chosen :
      (signer : ℕ) (rate : FeeRate) (utxos : List UtxoInfo) (total added : ℕ) (d d' : Draft C)
      → total < u64_mod
      → added < u32_mod
      → Kept p law node n d d'
      → UpTo p law node n signer [] d' (picked rate d.transaction.input utxos)
      → Chosen signer rate utxos total added d (total, added, d')
  none-Chosen signer rate utxos total added d d' t a (tx, slice, v) up = record {
    chosen = [];
    sublist = tt;
    wanted = tt;
    fresh = tt;
    complete = up;
    inputs =
        tx ∙ ap (λ l. record d.transaction { input = l }) (sym (append-nil d.transaction.input));
    signs = slice ∙ sym (append-nil (p.as_slice d.inputs_to_sign));
    valid = v;
    sum = omega arith;
    count = omega arith;
  }

  skip :
      (signer : ℕ) (rate : FeeRate) (utxo : UtxoInfo) (utxos : List UtxoInfo) (total added : ℕ)
      (d : Draft C) (out : ℕ × ℕ × Draft C)
      → picked rate d.transaction.input (utxo ∷ utxos) ≡ picked rate d.transaction.input utxos
      → Chosen signer rate utxos total added d out
      → Chosen signer rate (utxo ∷ utxos) total added d out
  skip signer rate utxo utxos total added d out same c = record {
    chosen = c.chosen;
    sublist = later c.chosen c.sublist;
    wanted = c.wanted;
    fresh = c.fresh;
    complete = subst (UpTo p law node n signer c.chosen out.2) (sym same) c.complete;
    inputs = c.inputs;
    signs = c.signs;
    valid = c.valid;
    sum = c.sum;
    count = c.count;
  }
    where
      later : (us : List UtxoInfo) → Sublist us utxos → Sublist us (utxo ∷ utxos)
      later [] s = tt
      later (u ∷ us) s = inr s

  choose :
      (signer : ℕ) (rate : FeeRate) (utxo : UtxoInfo) (utxos : List UtxoInfo) (total added : ℕ)
      (d d' : Draft C) (out : ℕ × ℕ × Draft C)
      → should_consolidate rate utxo ≡ true
      → in_transaction utxo.meta d.transaction.input ≡ false
      → Grown p law node n signer (unsigned_input utxo.meta) d d'
      → Chosen signer rate utxos ((total + utxo.value) % u64_mod) ((added + 1) % u32_mod) d' out
      → Chosen signer rate (utxo ∷ utxos) total added d out
  choose signer rate utxo utxos total added d d' out want new (tx, slice, v, small) c = record {
    chosen = utxo ∷ c.chosen;
    sublist = inl (refl, c.sublist);
    wanted = (want, c.wanted);
    fresh = (new, rw (ap (λ t. t.input) tx) at c.fresh);
    complete = subst (UpTo p law node n signer (utxo ∷ c.chosen) out.2) (sym taken) (
        UpTo-cons p law node n signer utxo c.chosen
          (picked rate (d.transaction.input ++ (unsigned_input utxo.meta ∷ [])) utxos) out.2
          (subst (λ l. UpTo p law node n signer c.chosen out.2 (picked rate l utxos))
            (ap (λ t. t.input) tx) c.complete));
    inputs =
        c.inputs
        ∙ ap (more c.chosen) tx
        ∙ ap {B = Transaction} (λ l. record d.transaction { input = l })
            (append_assoc d.transaction.input (unsigned_input utxo.meta ∷ []) (spending c.chosen));
    signs =
        c.signs
        ∙ ap₂ (λ l k. l ++ entries_from signer k c.chosen) slice
            (ap (λ t. length t.input) tx
              ∙ length-append d.transaction.input (unsigned_input utxo.meta ∷ []))
        ∙ append_assoc (p.as_slice d.inputs_to_sign) (entry p law node n d signer ∷ [])
            (entries_from signer (length d.transaction.input + 1) c.chosen);
    valid = c.valid;
    sum = omega (arith, c.sum);
    count = omega (arith, c.count);
  }
    where
      taken :
          picked rate d.transaction.input (utxo ∷ utxos)
          ≡ utxo ∷ picked rate (d.transaction.input ++ (unsigned_input utxo.meta ∷ [])) utxos
      taken = rw (want, new, picked) refl

      more : List UtxoInfo → Transaction → Transaction
      more us t = record t { input = t.input ++ spending us }

  -- The loop adds the inputs of a part of the UTXOs, in their order, that are old enough and that no
  -- input before them spends, with an entry to sign each; it counts them and adds up their values.
  -- (No key is reserved for an input; the sums that are carried in fit.)
  pub consolidate-Chosen :
      (signer : ℕ) (rate : FeeRate) (utxos : List UtxoInfo) (total added : ℕ) (d : Draft C)
      → total < u64_mod
      → added < u32_mod
      → law.IsValid d.inputs_to_sign
      → Unsigned n.inputs
      → Chosen signer rate utxos total added d
          (consolidate p node n signer rate utxos total added d)
  unfolding consolidate
  consolidate-Chosen signer rate [] total added d t a v u =
      none-Chosen signer rate [] total added d d t a (refl, refl, v) (inl refl)
  consolidate-Chosen signer rate (utxo ∷ utxos) total added d t a v u =
      let rest = (consolidate-Chosen signer rate utxos total added d t a v u) in
      let out = consolidate p node n signer rate utxos total added d in
      elim (Bool-cases (should_consolidate rate utxo)) [
        | inr young ↦
            rw (young, consolidate)
              (skip signer rate utxo utxos total added d out (rw (young, picked) refl) rest)
        | inl want ↦ elim (Bool-cases (in_transaction utxo.meta d.transaction.input)) [
          | inl old ↦
              rw (want, old, consolidate)
                (skip signer rate utxo utxos total added d out (rw (want, old, picked) refl) rest)
          | inr new ↦
              elim (safe_add_input_to_transaction_lem p law node n signer (unsigned_input utxo.meta)
                d v u) [
                  | inl (_, inl (_, done, grown)) ↦
                      rw (want, new, done, consolidate)
                        (choose signer rate utxo utxos total added d
                          (safe_add_input_to_transaction p node n signer (unsigned_input utxo.meta)
                            d).1
                          (consolidate p node n signer rate utxos ((total + utxo.value) % u64_mod)
                            ((added + 1) % u32_mod)
                            (safe_add_input_to_transaction p node n signer
                              (unsigned_input utxo.meta) d).1)
                          want new grown
                          (consolidate-Chosen signer rate utxos ((total + utxo.value) % u64_mod)
                            ((added + 1) % u32_mod)
                            (safe_add_input_to_transaction p node n signer
                              (unsigned_input utxo.meta) d).1
                            (omega arith) (omega arith) grown.2 u))
                  | inl (_, inr (big, failed, kept)) ↦
                      rw (want, new, failed, consolidate)
                        (none-Chosen signer rate (utxo ∷ utxos) total added d
                          (safe_add_input_to_transaction p node n signer (unsigned_input utxo.meta)
                            d).1
                          t a kept
                          (inr (
                            utxo,
                            picked rate (d.transaction.input ++ (unsigned_input utxo.meta ∷ []))
                                utxos,
                            rw (want, new, picked) refl,
                            too_large p law node n signer utxo d
                                (safe_add_input_to_transaction p node n signer
                                  (unsigned_input utxo.meta) d).1
                                big kept,
                          )))
                  | inr (full, failed, kept) ↦
                      rw (want, new, failed, consolidate)
                        (none-Chosen signer rate (utxo ∷ utxos) total added d
                          (safe_add_input_to_transaction p node n signer (unsigned_input utxo.meta)
                            d).1
                          t a kept
                          (inr (
                            utxo,
                            picked rate (d.transaction.input ++ (unsigned_input utxo.meta ∷ []))
                                utxos,
                            rw (want, new, picked) refl,
                            no_place p law node n signer utxo d
                                (safe_add_input_to_transaction p node n signer
                                  (unsigned_input utxo.meta) d).1
                                v full kept,
                          )))
                ]
        ]
      ]

  -- (The inputs that are reserved need no signature.) The call goes through the UTXOs that are old enough
  -- and that no input before them spends, and adds, in their order, an input and an entry to sign for each,
  -- up to the first that cannot join because the entries are full or the size would pass the limit; it adds
  -- nothing else. It returns the sum of their values and what their number may add to the size, both
  -- modulo 2^64.
  pub add_consolidation_utxos-Chosen :
      (signer : ℕ) (utxos : List UtxoInfo) (rate : FeeRate) (size : ℕ) (d : Draft C)
      → law.IsValid d.inputs_to_sign
      → Unsigned n.inputs
      → (added : ℕ) × Chosen signer rate utxos 0 0 d (
        (add_consolidation_utxos p node n signer utxos rate size d).0.0,
        added,
        (add_consolidation_utxos p node n signer utxos rate size d).1,
      )
        × ((add_consolidation_utxos p node n signer utxos rate size d).0.1
            ≡ (size * added) % u64_mod)
  unfolding add_consolidation_utxos calculate_extra_tx_size_for_consolidation
  add_consolidation_utxos-Chosen signer utxos rate size d v u = (
    (consolidate p node n signer rate utxos 0 0 d).1,
    consolidate-Chosen signer rate utxos 0 0 d (omega arith) (omega arith) v u,
    refl,
  )
