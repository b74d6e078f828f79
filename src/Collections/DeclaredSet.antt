-- ===== src/Collections/DeclaredSet.antt =====
-- The macro `declare_fixed_set` of saturn-collections/src/macros/fixed_set.rs.
--
-- The struct has the fields of the generic FixedSet, with a length of 8 bits; nothing bounds the macro's
-- `$SIZE`, which is the argument `size`.
pub mod Generic
use saturn_crates.Prelude.{
  ℕ, ◌+◌, ◌-◌, ◌%◌, List, [], ◌∷◌, Bool, Option, none, some, Result, ok, err, panicked, leb, ◌==◌,
  if◌then◌else◌, length, get_elem?, set,
}
use saturn_crates.Collections.FixedSet
use saturn_crates.Collections.FixedSet.{
  FixedSet, FixedSetError, full, duplicate, position, modify_at, swap_remove,
}

abbrev pub u8_mod : ℕ
u8_mod = 256

module _ {ℓ} {A : Type ℓ} where
  unfoldable pub is_full : ℕ → FixedSet A → Bool
  is_full size s = s.len == size

  -- `eqv` is the item type's `PartialEq`.
  unfoldable pub insert :
      (A → A → Bool) → ℕ → FixedSet A → A → Result FixedSetError (Unit {0}) × FixedSet A
  unfolding FixedSet.contains is_full
  insert eqv size s item =
      if FixedSet.contains (λ i. eqv i item) s
      then (err duplicate, s)
      else if is_full size s
      then (err full, s)
      else (ok tt, record { items = set s.items s.len item; len = (s.len + 1) % u8_mod })

  unfoldable pub insert_or_modify {κ} :
      {E : Type κ}
      → (A → A → Bool)
      → ℕ
      → (FixedSetError → Result E (Unit {0}))
      → FixedSet A
      → A
      → (A → Result E A)
      → Result E (Unit {0}) × FixedSet A
  unfolding FixedSet.contains insert
  insert_or_modify eqv size from s item modify =
      if FixedSet.contains (λ i. eqv i item) s
      then elim (position (λ i. eqv i item) (FixedSet.as_slice s)) [
        | none ↦ (panicked, s)
        | some pos ↦ modify_at modify pos s (get_elem? s.items pos)
      ]
      else let (r, s') = insert eqv size s item in
        (elim r [ ok u ↦ ok u | err e ↦ from e | panicked ↦ panicked ], s')

  -- The length is reduced before it is compared.
  unfoldable pub remove : (A → Bool) → FixedSet A → Option A × FixedSet A
  remove p s = elim (position p (FixedSet.as_slice s)) [
    | none ↦ (none, s)
    | some pos ↦
        let len = s.len - 1 in
        (
          get_elem? s.items pos,
          record { items = swap_remove pos len s.items (get_elem? s.items len); len = len },
        )
  ]

  -- the loops of the two conversions, which drop what an insertion returns
  unfoldable pub insert_each : (A → A → Bool) → ℕ → FixedSet A → List A → FixedSet A
  unfolding FixedSet.insert
  insert_each eqv size s [] = s
  insert_each eqv size s (x ∷ xs) = insert_each eqv size (FixedSet.insert eqv size s x).1 xs

  unfoldable pub insert_declared : (A → A → Bool) → ℕ → FixedSet A → List A → FixedSet A
  unfolding insert
  insert_declared eqv size s [] = s
  insert_declared eqv size s (x ∷ xs) = insert_declared eqv size (insert eqv size s x).1 xs

  unfoldable pub to_generic : (A → A → Bool) → ℕ → A → FixedSet A → FixedSet A
  unfolding FixedSet.new insert_each
  to_generic eqv size default custom =
      insert_each eqv size (FixedSet.new size default) (FixedSet.as_slice custom)

  unfoldable pub of_generic : (A → A → Bool) → ℕ → A → FixedSet A → FixedSet A
  unfolding FixedSet.new insert_declared
  of_generic eqv size default s =
      insert_declared eqv size (FixedSet.new size default) (FixedSet.as_slice s)
