-- ===== src/Shards/Settle/Outputs.antt =====
-- The outputs that return satoshis to the shards are worth what is unsettled.
use saturn_crates.Prelude.{
  ℕ, ◌+◌, ◌*◌, ◌/◌, ◌≤◌, ◌<◌, ◌≡◌, refl, ◌∙◌, List, [], ◌∷◌, ◌++◌, true, false, Option-cases, none,
  some, ok, Result-cases, leb, length, map, get_elem?, get_elem?-lt, All, arith, inl, inr, ◌⊎◌,
  try_,
}
use mathlib.Core.Path.{subst}
use saturn_crates.Prelude.Sort.{
  sum_by, sort_by, IsSorted, sort_by-IsSorted, sum_by-sort_by, All-sort_by,
}
use saturn_crates.SafeMath.{u64_mod, u128_mod, safe_add, safe_sub}
use saturn_crates.Transactions.Chain.{Node, FeeRate, Script, RuneId}
use saturn_crates.Transactions.Builder.State.{TransactionBuilder, dust_limit}
use saturn_crates.Shards.Set.{Loader, load, StateShard, ShardSet, with_ref}
use saturn_crates.Shards.Split.{sum}
use saturn_crates.Shards.Split.Needs.{reads}
use saturn_crates.Shards.Split.Balance.{Assigned, balance_amount_lem}
use saturn_crates.Shards.Split.Dust.{redistribute_sub_dust_values_lem}
use saturn_crates.Shards.Settle.{
  spent_total, compute_unsettled_btc_in_shards, current_amount, read_amount,
  balance_amount_across_shards, plan_btc_distribution_among_shards, outputs_for,
  redistribute_remaining_btc_to_shards,
}

unsettled-small :
    (total consolidated removed fee remaining : ℕ)
    → (try_
        (safe_add u64_mod total consolidated)
        λ all. try_ (safe_sub u64_mod all removed) λ rest. safe_sub u64_mod rest fee)
      ≡ ok remaining
    → remaining < u64_mod
unfolding safe_add safe_sub
unsettled-small total consolidated removed fee remaining h = ground arith

biggest_first_total : (x y : ℕ) → leb y x ≡ false → leb x y ≡ true
biggest_first_total x y h = ground arith

biggest_first_trans : (x y z : ℕ) → leb y x ≡ true → leb z y ≡ true → leb z x ≡ true
biggest_first_trans x y z h k = ground arith

-- Amounts that sum up to what fits are not cut by the conversion.
worth :
    (script : Script) (xs : List ℕ)
    → sum xs < u64_mod
    → sum_by (λ o. o.value) (outputs_for script xs) ≡ sum xs
worth script [] h = refl
worth script (x ∷ xs) h = omega (arith, worth script xs (omega (arith, h)))

module _ {S : Type 0} (t : StateShard S) where
  -- what a shard holds, or zero, if it cannot be read
  abbrev pub holds : Node → TransactionBuilder → ShardSet S → RuneId → ℕ → ℕ
  holds node b shards id idx = elim (get_elem? shards.loaders idx) [
    | none ↦ 0
    | some l ↦ elim l.shard [ none ↦ 0 | some s ↦ current_amount t node b id s ]
  ]

  read_amount_lem :
      (node : Node) (b : TransactionBuilder) (shards : ShardSet S) (id : RuneId) (idx : ℕ)
      → idx < length shards.loaders
      → read_amount t node b shards id idx ≡ ok (holds node b shards id idx)
  unfolding read_amount with_ref load
  read_amount_lem node b shards id idx h =
      let (l, at) = get_elem?-lt shards.loaders idx h in go l at
    where
      go :
          (l : Loader S)
          → get_elem? shards.loaders idx ≡ some l
          → read_amount t node b shards id idx ≡ ok (holds node b shards id idx)
      go l at = elim (Option-cases l.shard) [ inl e ↦ ground arith | inr (s, e) ↦ ground arith ]

  map-read_amount :
      (node : Node) (b : TransactionBuilder) (shards : ShardSet S) (id : RuneId) (sel : List ℕ)
      → All (λ idx. idx < length shards.loaders) sel
      → map (read_amount t node b shards id) sel ≡ reads (map (holds node b shards id) sel)
  map-read_amount node b shards id [] a = refl
  map-read_amount node b shards id (idx ∷ sel) a =
      rw (read_amount_lem node b shards id idx a.0, map-read_amount node b shards id sel a.1) refl

  length-holds :
      (node : Node) (b : TransactionBuilder) (shards : ShardSet S) (id : RuneId) (sel : List ℕ)
      → length (map (holds node b shards id) sel) ≡ length sel
  length-holds node b shards id [] = refl
  length-holds node b shards id (idx ∷ sel) = omega (arith, length-holds node b shards id sel)

  pub balance_amount_across_shards_lem :
      (node : Node) (b : TransactionBuilder) (shards : ShardSet S) (id : RuneId) (amount : ℕ)
      → 0 < length shards.selected
      → All (λ idx. idx < length shards.loaders) shards.selected
      → sum (map (holds node b shards id) shards.selected) + amount < u128_mod
      → amount * (sum (map (holds node b shards id) shards.selected) + amount) < u128_mod
      → (gets : List ℕ) × (balance_amount_across_shards t node b shards
            (record { id = id; amount = amount })
          ≡ ok gets)
        × Assigned amount
            ((sum (map (holds node b shards id) shards.selected) + amount) / length shards.selected)
            (map (holds node b shards id) shards.selected)
            gets
  unfolding balance_amount_across_shards
  balance_amount_across_shards_lem node b shards id amount pos range fits product =
      let len = length-holds node b shards id shards.selected in
      let (gets, run, assigned) =
        balance_amount_lem amount (map (holds node b shards id) shards.selected)
          (omega (arith, len, pos)) fits product in
      (
        gets,
        rw (map-read_amount node b shards id shards.selected range) run,
        subst
            (λ k.
              Assigned amount ((sum (map (holds node b shards id) shards.selected) + amount) / k)
                (map (holds node b shards id) shards.selected) gets)
            len assigned,
      )

  unsettled_lem :
      (node : Node) (rate : FeeRate) (b : TransactionBuilder) (shards : ShardSet S)
      (removed remaining : ℕ)
      → compute_unsettled_btc_in_shards t node rate b shards removed ≡ ok remaining
      → remaining < u64_mod
  unfolding compute_unsettled_btc_in_shards
  unsettled_lem node rate b shards removed remaining h =
      elim (Result-cases (spent_total t shards b.transaction.input 0)) [
        | inl (total, done) ↦
            unsettled-small total b.total_btc_consolidation_input removed
              (node.fee rate b.extra_tx_size_for_consolidation) remaining (rw done at h)
        | inr (inl (e, failed)) ↦ absurd (cc (rw failed at h))
        | inr (inr panic) ↦ absurd (cc (rw panic at h))
      ]

  -- The call adds outputs to the program that are worth what is unsettled, from the biggest to the
  -- smallest, and none below the dust limit; or it adds none, where what is unsettled is less than that.
  -- (The bounds are those of `balance_amount_across_shards_lem`.)
  pub redistribute_remaining_btc_to_shards_lem :
      (node : Node) (rate : FeeRate) (b : TransactionBuilder) (shards : ShardSet S) (removed : ℕ)
      (script : Script) (remaining : ℕ)
      → compute_unsettled_btc_in_shards t node rate b shards removed ≡ ok remaining
      → 0 < length shards.selected
      → All (λ idx. idx < length shards.loaders) shards.selected
      → sum (map (holds node b shards node.btc) shards.selected) + remaining < u128_mod
      → remaining * (sum (map (holds node b shards node.btc) shards.selected) + remaining)
        < u128_mod
      → (amounts : List ℕ) × (redistribute_remaining_btc_to_shards t node rate shards removed script
            b
          ≡ (
            ok amounts,
            record b {
              transaction = record b.transaction {
                output = b.transaction.output ++ outputs_for script amounts;
              };
            },
          ))
        × IsSorted (λ x y. leb y x) amounts
        × All (λ a. dust_limit ≤ a) amounts
        × ((sum_by (λ o. o.value) (outputs_for script amounts) ≡ remaining)
            ⊎ ((amounts ≡ []) × (remaining < dust_limit)))
  unfolding redistribute_remaining_btc_to_shards sort_by plan_btc_distribution_among_shards
  redistribute_remaining_btc_to_shards_lem node rate b shards removed script remaining quote pos
        range fits product =
      let small = unsettled_lem node rate b shards removed remaining quote in
      let (gets, balanced, assigned) =
        balance_amount_across_shards_lem node b shards node.btc remaining pos range fits product in
      let (kept, joined, (all, total)) =
        redistribute_sub_dust_values_lem dust_limit gets (omega (arith, assigned.1, fits)) in
      let summed = sum_by-sort_by (λ x y. leb y x) (λ x. x) kept in
      (
        sort_by (λ x y. leb y x) kept,
        rw (quote, balanced, joined) refl,
        sort_by-IsSorted (λ x y. leb y x) biggest_first_total biggest_first_trans kept,
        All-sort_by (λ x y. leb y x) (λ a. dust_limit ≤ a) kept all,
        elim total [
          | inl same ↦ inl (
              worth script (sort_by (λ x y. leb y x) kept)
                (omega (arith, summed, same, assigned.1, small))
              ∙ summed
              ∙ same
              ∙ assigned.1)
          | inr (empty, dust) ↦ inr (sort_empty kept empty, omega (arith, dust, assigned.1))
        ],
      )
    where
      sort_empty : (xs : List ℕ) → xs ≡ [] → sort_by (λ x y. leb y x) xs ≡ []
      sort_empty xs e = rw e refl
