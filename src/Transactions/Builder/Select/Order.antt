-- ===== src/Transactions/Builder/Select/Order.antt =====
-- The order in which `find_btc_in_program_utxos` tries the UTXOs.
use saturn_crates.Prelude.{
  ℕ, suc, ◌+◌, ◌≡◌, ◌≤◌, refl, List, [], ◌∷◌, Bool, true, false, length, arith, ap, ◌∙◌, none, some,
  All, get_elem?, Option-cases, inl, inr, leb→le,
}
use mathlib.Core.List.{Perm}
use saturn_crates.Prelude.Sort.{
  IsSorted, sort_by, sum_by, sort_by-perm, sort_by-IsSorted, sum_by-sort_by,
}
use saturn_crates.Transactions.Builder.State.{UtxoInfo}
use saturn_crates.Transactions.Builder.Select.{
  is_some, range_from, value_at, consolidates_at, not_after, preferred, sorted_indices,
}

not_after_total : (p q : Bool) (x y : ℕ) → not_after p q x y ≡ false → not_after q p y x ≡ true
not_after_total p q x y h = ground arith

not_after_trans :
    (p q r : Bool) (x y z : ℕ)
    → not_after p q x y ≡ true
    → not_after q r y z ≡ true
    → not_after p r x z ≡ true
not_after_trans p q r x y z h k = ground arith

-- One UTXO may be tried before another: it needs no consolidation and the other does, or both are alike in
-- this and it is worth no less.
abbrev pub Precedes : UtxoInfo → UtxoInfo → Type 0
Precedes u v = elim u.needs_consolidation [
  | none ↦ elim v.needs_consolidation [ none ↦ v.value ≤ u.value | some _ ↦ Unit ]
  | some _ ↦ elim v.needs_consolidation [ none ↦ ⊥ | some _ ↦ v.value ≤ u.value ]
]

-- Every UTXO may be tried before those behind it.
abbrev pub InOrder : List UtxoInfo → Type 0
InOrder [] = Unit
InOrder (u ∷ us) = All (Precedes u) us × InOrder us

-- the UTXOs at the indices
abbrev pub chosen_at : List UtxoInfo → List ℕ → List UtxoInfo
chosen_at utxos [] = []
chosen_at utxos (i ∷ is) = elim (get_elem? utxos i) [
  | none ↦ chosen_at utxos is
  | some u ↦ u ∷ chosen_at utxos is
]

not_after-Precedes :
    (u v : UtxoInfo)
    → not_after (is_some u.needs_consolidation) (is_some v.needs_consolidation) u.value v.value
      ≡ true
    → Precedes u v
not_after-Precedes u v h = elim (Option-cases u.needs_consolidation) [
  | inl e ↦ elim (Option-cases v.needs_consolidation) [
    | inl f ↦ rw (e, f) (leb→le v.value u.value (rw (e, f) at h))
    | inr (_, f) ↦ rw (e, f) tt
  ]
  | inr (_, e) ↦ elim (Option-cases v.needs_consolidation) [
    | inl f ↦ absurd (cc (rw (e, f) at h))
    | inr (_, f) ↦ rw (e, f) (leb→le v.value u.value (rw (e, f) at h))
  ]
]

preferred-Precedes :
    (utxos : List UtxoInfo) (u : UtxoInfo) (i : ℕ) (is : List ℕ)
    → get_elem? utxos i ≡ some u
    → All (λ j. preferred utxos i j ≡ true) is
    → All (Precedes u) (chosen_at utxos is)
preferred-Precedes utxos u i [] at a = tt
preferred-Precedes utxos u i (j ∷ is) at a = elim (Option-cases (get_elem? utxos j)) [
  | inl out ↦ rw (out, chosen_at) (preferred-Precedes utxos u i is at a.1)
  | inr (v, here) ↦
      rw (here, chosen_at)
        (
          not_after-Precedes u v (rw (at, here, consolidates_at, value_at) at a.0),
          preferred-Precedes utxos u i is at a.1,
        )
]

IsSorted-InOrder :
    (utxos : List UtxoInfo) (is : List ℕ)
    → IsSorted (preferred utxos) is
    → InOrder (chosen_at utxos is)
IsSorted-InOrder utxos [] s = tt
IsSorted-InOrder utxos (i ∷ is) s = elim (Option-cases (get_elem? utxos i)) [
  | inl out ↦ rw (out, chosen_at) (IsSorted-InOrder utxos is s.1)
  | inr (u, here) ↦
      rw (here, chosen_at) (preferred-Precedes utxos u i is here s.0, IsSorted-InOrder utxos is s.1)
]

module _ (utxos : List UtxoInfo) where
  -- The indices are a rearrangement of all of them, and the UTXOs at them stand in this order: first those
  -- that need no consolidation, then those that do, and by falling value among each of the two.
  pub sorted_indices_lem :
      Perm (sorted_indices utxos) (range_from 0 (length utxos))
      × InOrder (chosen_at utxos (sorted_indices utxos))
  unfolding sorted_indices
  sorted_indices_lem = (
    sort_by-perm (preferred utxos) (range_from 0 (length utxos)),
    IsSorted-InOrder utxos (sort_by (preferred utxos) (range_from 0 (length utxos))) (
        sort_by-IsSorted (preferred utxos)
          (λ a b.
            not_after_total (consolidates_at utxos a) (consolidates_at utxos b) (value_at utxos a)
              (value_at utxos b))
          (λ a b d.
            not_after_trans (consolidates_at utxos a) (consolidates_at utxos b)
              (consolidates_at utxos d) (value_at utxos a) (value_at utxos b) (value_at utxos d))
          (range_from 0 (length utxos))),
  )

-- the value of all UTXOs
abbrev pub pool : List UtxoInfo → ℕ
pool = sum_by (λ u. u.value)

sum_by-range_from :
    (f : ℕ → ℕ) (utxos : List UtxoInfo) (i : ℕ)
    → ((k : ℕ) → f (i + k) ≡ value_at utxos k)
    → sum_by f (range_from i (length utxos)) ≡ pool utxos
sum_by-range_from f [] i h = refl
sum_by-range_from f (u ∷ utxos) i h = omega (
  arith,
  h 0,
  ap f (first i),
  sum_by-range_from f utxos (suc i) (λ k. ap f (next i k) ∙ h (suc k)),
)
  where
    first : (i : ℕ) → i + 0 ≡ i
    first i = omega arith

    next : (i k : ℕ) → suc i + k ≡ i + suc k
    next i k = omega arith

pub pool-sorted_indices :
    (utxos : List UtxoInfo) → sum_by (value_at utxos) (sorted_indices utxos) ≡ pool utxos
unfolding sorted_indices
pool-sorted_indices utxos =
    sum_by-sort_by (preferred utxos) (value_at utxos) (range_from 0 (length utxos))
    ∙ sum_by-range_from (value_at utxos) utxos 0 (λ k. ap (value_at utxos) (zero_add k))
  where
    zero_add : (k : ℕ) → 0 + k ≡ k
    zero_add k = omega arith
