-- ===== src/Collections/DeclaredSet/Generic.antt =====
-- A declared set against the generic FixedSet.
use saturn_crates.Prelude.{
  ℕ, ◌+◌, ◌%◌, ◌≡◌, ◌≤◌, ◌<◌, refl, Bool, true, false, Result, leb, ◌==◌, arith, Bool-cases, inl,
  inr,
}
use saturn_crates.Collections.FixedSet
use saturn_crates.Collections.FixedSet.{FixedSet, FixedSetError}
use saturn_crates.Collections.FixedSet.Laws.{IsValid}
use saturn_crates.Collections.DeclaredSet
use saturn_crates.Collections.DeclaredSet.{u8_mod, is_full}

module _ {ℓ} {A : Type ℓ} (eqv : A → A → Bool) (size : ℕ) where
  insert-generic :
      (s : FixedSet A) (item : A)
      → size < u8_mod
      → s.len ≤ size
      → DeclaredSet.insert eqv size s item ≡ FixedSet.insert eqv size s item
  unfolding DeclaredSet.insert FixedSet.insert is_full
  insert-generic s item small bounded = elim (Bool-cases (leb size s.len)) [
    | inl full ↦
        let same : (s.len == size) ≡ true = ground (arith, full, bounded) in rw (full, same) refl
    | inr room ↦
        let below : s.len < size = ground (arith, room) in
        let differs : (s.len == size) ≡ false = ground (arith, room) in
        let fits : (s.len + 1) % u8_mod ≡ s.len + 1 = omega (arith, small, bounded, below) in
        rw (room, differs, fits) refl
  ]

  insert_or_modify-generic {κ} :
      {E : Type κ}
      → (from : FixedSetError → Result E (Unit {0})) → (s : FixedSet A) (item : A)
      → (modify : A → Result E A) → size < u8_mod
      → s.len ≤ size
      → DeclaredSet.insert_or_modify eqv size from s item modify
        ≡ FixedSet.insert_or_modify eqv size from s item modify
  unfolding DeclaredSet.insert_or_modify FixedSet.insert_or_modify
  insert_or_modify-generic from s item modify small bounded =
      rw (insert-generic s item small bounded) refl

  remove-generic : (p : A → Bool) (s : FixedSet A) → DeclaredSet.remove p s ≡ FixedSet.remove p s
  unfolding DeclaredSet.remove FixedSet.remove
  remove-generic p s = refl

  -- (The capacity is below 2^8.) A declared set and a generic one that hold the same items reply alike to an
  -- insertion, to an insertion that modifies and to a removal, and hold the same items afterwards.
  pub declared-generic {κ} :
      {E : Type κ}
      → (from : FixedSetError → Result E (Unit {0})) → (p : A → Bool) → (s : FixedSet A) (item : A)
      → (modify : A → Result E A) → size < u8_mod
      → IsValid size s
      → (DeclaredSet.insert eqv size s item ≡ FixedSet.insert eqv size s item)
        × ((DeclaredSet.insert_or_modify eqv size from s item modify
              ≡ FixedSet.insert_or_modify eqv size from s item modify)
            × (DeclaredSet.remove p s ≡ FixedSet.remove p s))
  declared-generic from p s item modify small v = (
    insert-generic s item small v.bounded,
    (insert_or_modify-generic from s item modify small v.bounded, remove-generic p s),
  )
