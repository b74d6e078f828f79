-- ===== src/Shards/RuneSettle/Emitted.antt =====
-- The outputs and edicts that return runes to the shards.
use saturn_crates.Prelude.{
  ℕ, ◌+◌, ◌%◌, ◌<◌, ◌≡◌, refl, sym, ap, ap₂, ◌∙◌, List, [], ◌∷◌, ◌++◌, some, ok, Result-cases, ltb,
  if◌then◌else◌, Bool, length, replicate, true, false, arith, append_assoc, append-nil, inl, inr,
  ok-injective,
}
use mathlib.Core.Path.{subst}
use saturn_crates.Prelude.Sort.{IsSorted, sort_by, sort_by-IsSorted}
use saturn_crates.SafeMath.{u32_mod}
use saturn_crates.Collections.FixedSet
use saturn_crates.Transactions.Chain.{Node, TxOut, Script}
use saturn_crates.Transactions.Runes.{RuneSet}
use saturn_crates.Transactions.Builder.State.{TransactionBuilder, Edict, dust_limit}
use saturn_crates.Shards.Set.{StateShard, ShardSet}
use saturn_crates.Shards.RuneSettle.{
  edicts_for, emit, biggest_first, compute_unsettled_rune_in_shards,
  plan_rune_distribution_among_shards, redistribute_remaining_rune_to_shards,
}

abbrev pub dust_output : Script → TxOut
dust_output script = record { value = dust_limit; script_pubkey = script }

-- the edicts of the sets for the outputs from `index` on
abbrev pub edicts_from : ℕ → List RuneSet → List Edict
edicts_from index [] = []
edicts_from index (s ∷ sets) =
    edicts_for index (FixedSet.as_slice s) ++ edicts_from (index + 1) sets

-- the edicts of all sets but the first, which the pointer takes
abbrev pub edicts_after_first : ℕ → List RuneSet → List Edict
edicts_after_first first [] = []
edicts_after_first first (s ∷ sets) = edicts_from (first + 1) sets

-- `b'` has the new outputs and edicts on top of those of `b`, and is `b` otherwise.
abbrev pub Emitted : Script → ℕ → List Edict → TransactionBuilder → TransactionBuilder → Type 0
Emitted script count edicts b b' = b' ≡ record b {
  transaction = record b.transaction {
    output = b.transaction.output ++ replicate count (dust_output script);
  };
  runestone = record b.runestone { edicts = b.runestone.edicts ++ edicts };
}

extended : List TxOut → List Edict → TransactionBuilder → TransactionBuilder
extended outputs edicts b = record b {
  transaction = record b.transaction { output = outputs };
  runestone = record b.runestone { edicts = edicts };
}

emit_later :
    (script : Script) (first index : ℕ) (sets : List RuneSet) (b : TransactionBuilder)
    → first < index
    → Emitted script (length sets) (edicts_from index sets) b (emit script first index sets b)
unfolding emit extended
emit_later script first index [] b h =
    ap₂ (λ o e. extended o e b) (sym (append-nil b.transaction.output))
      (sym (append-nil b.runestone.edicts))
emit_later script first index (s ∷ sets) b h =
    let later : ltb first index ≡ true = ground arith in
    let b' : TransactionBuilder =
      extended (b.transaction.output ++ (dust_output script ∷ []))
        (b.runestone.edicts ++ edicts_for index (FixedSet.as_slice s)) b in
    ap
      (λ e.
        emit script first (index + 1) sets
          (extended (b.transaction.output ++ (dust_output script ∷ [])) e b))
      (chosen (ltb first index) later)
    ∙ emit_later script first (index + 1) sets b' (omega (arith, h))
    ∙ ap₂ (λ o e. extended o e b)
        (append_assoc b.transaction.output (dust_output script ∷ [])
          (replicate (length sets) (dust_output script)))
        (append_assoc b.runestone.edicts (edicts_for index (FixedSet.as_slice s))
          (edicts_from (index + 1) sets))
  where
    chosen :
        (c : Bool)
        → c ≡ true
        → (if c
            then b.runestone.edicts ++ edicts_for index (FixedSet.as_slice s)
            else b.runestone.edicts)
          ≡ b.runestone.edicts ++ edicts_for index (FixedSet.as_slice s)
    chosen c h = rw h refl

emit_lem :
    (script : Script) (first : ℕ) (sets : List RuneSet) (b : TransactionBuilder)
    → Emitted script
        (length sets)
        (edicts_after_first first sets)
        b
        (emit script first first sets b)
unfolding emit extended
emit_lem script first [] b =
    ap₂ (λ o e. extended o e b) (sym (append-nil b.transaction.output))
      (sym (append-nil b.runestone.edicts))
emit_lem script first (s ∷ sets) b =
    let b' : TransactionBuilder =
      extended (b.transaction.output ++ (dust_output script ∷ [])) b.runestone.edicts b in
    ap
      (λ e.
        emit script first (first + 1) sets
          (extended (b.transaction.output ++ (dust_output script ∷ [])) e b))
      (skipped (ltb first first) (ground arith))
    ∙ emit_later script first (first + 1) sets b' (omega arith)
    ∙ ap (λ o. extended o (b.runestone.edicts ++ edicts_from (first + 1) sets) b)
        (append_assoc b.transaction.output (dust_output script ∷ [])
          (replicate (length sets) (dust_output script)))
  where
    skipped :
        (c : Bool)
        → c ≡ false
        → (if c
            then b.runestone.edicts ++ edicts_for first (FixedSet.as_slice s)
            else b.runestone.edicts)
          ≡ b.runestone.edicts
    skipped c h = rw h refl

biggest_first_total : (a b : RuneSet) → biggest_first a b ≡ false → biggest_first b a ≡ true
biggest_first_total a b h = ground arith

biggest_first_trans :
    (a b c : RuneSet)
    → biggest_first a b ≡ true
    → biggest_first b c ≡ true
    → biggest_first a c ≡ true
biggest_first_trans a b c h k = ground arith

module _ {S : Type 0} (t : StateShard S) (node : Node) (max_runes : ℕ) (shards : ShardSet S)
    (removed : RuneSet) (script : Script) where
  -- A call that succeeds adds one dust output to the program for each set of runes, the sets sorted by
  -- what they sum up to; the pointer names the first of these outputs, and each further set gets the
  -- edicts that give its runes to its own output.
  pub redistribute_remaining_rune_to_shards-Emitted :
      (b : TransactionBuilder) (sets : List RuneSet)
      → (redistribute_remaining_rune_to_shards t node max_runes shards removed script b).0 ≡ ok sets
      → IsSorted biggest_first sets
        × Emitted script
            (length sets)
            (edicts_after_first (length b.transaction.output) sets)
            (record b {
              runestone = record b.runestone {
                pointer = some (length b.transaction.output % u32_mod);
              };
            })
            (redistribute_remaining_rune_to_shards t node max_runes shards removed script b).1
  unfolding redistribute_remaining_rune_to_shards
  redistribute_remaining_rune_to_shards-Emitted b sets h =
      elim (Result-cases (compute_unsettled_rune_in_shards max_runes t shards removed)) [
        | inl (remaining, found) ↦
            elim (Result-cases
              (plan_rune_distribution_among_shards max_runes t node b shards remaining)) [
                | inl (plan, planned) ↦
                    let same : sort_by biggest_first plan ≡ sets =
                      ok-injective (rw (found, planned) at h) in
                    (
                      subst (IsSorted biggest_first) same (
                          sort_by-IsSorted biggest_first biggest_first_total biggest_first_trans
                            plan),
                      rw (found, planned)
                          (subst
                            (λ l.
                              Emitted script (length l)
                                (edicts_after_first (length b.transaction.output) l) (pointed b)
                                (emit script (length b.transaction.output)
                                  (length b.transaction.output) (sort_by biggest_first plan)
                                  (pointed b)))
                            same
                            (emit_lem script (length b.transaction.output)
                              (sort_by biggest_first plan) (pointed b))),
                    )
                | inr (inl (x, failed)) ↦ absurd (cc (rw (found, failed) at h))
                | inr (inr panic) ↦ absurd (cc (rw (found, panic) at h))
              ]
        | inr (inl (x, failed)) ↦ absurd (cc (rw failed at h))
        | inr (inr panic) ↦ absurd (cc (rw panic at h))
      ]
    where
      pointed : TransactionBuilder → TransactionBuilder
      pointed b = record b {
        runestone = record b.runestone { pointer = some (length b.transaction.output % u32_mod) };
      }
