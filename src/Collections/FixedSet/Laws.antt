-- ===== src/Collections/FixedSet/Laws.antt =====
-- FixedSet: the representation invariant, insertion, lookup and modification.
use saturn_crates.Prelude.{
  ℕ, ◌≤◌, ◌<◌, ◌≡◌, ap, ◌∙◌, ◌⊎◌, List, [], ◌∷◌, ◌++◌, Bool, true, false, some, Result, ok, err,
  leb, if◌then◌else◌, length, get_elem?, set, any, find_first, arith, length-set, length-replicate,
  length-take, take-set, Bool-cases, inl, inr,
}
use saturn_crates.Collections.FixedSet.{
  FixedSetError, full, duplicate, FixedSet, new, position, as_slice, modify_at, written, insert,
  insert_or_modify,
}
use saturn_crates.Collections.FixedSet.Slices.{position-some, get_elem?-take}

module _ {ℓ} {A : Type ℓ} where
  pub record IsValid (size : ℕ) (s : FixedSet A) : Type 0 where
    pub sized : length s.items ≡ size
    pub bounded : s.len ≤ size

  pub new-IsValid : (size : ℕ) (d : A) → IsValid size (new size d)
  unfolding new
  new-IsValid size d = record { sized = length-replicate size d; bounded = omega arith }

  pub length-as_slice : (size : ℕ) (s : FixedSet A) → IsValid size s → length (as_slice s) ≡ s.len
  length-as_slice size s v = length-take s.len s.items (omega arith)

  -- what `insert` is on the slice: a duplicate is refused before a full set is
  abbrev pub insert_spec :
      (A → A → Bool) → ℕ → List A → A → Result FixedSetError (Unit {0}) × List A
  insert_spec eqv size xs item =
      if any (λ i. eqv i item) xs
      then (err duplicate, xs)
      else if leb size (length xs)
      then (err full, xs)
      else (ok tt, xs ++ (item ∷ []))

  module _ (eqv : A → A → Bool) (size : ℕ) where
    -- An insertion of an equivalent item is refused as a duplicate, one into a full set as full, and any
    -- other appends; both refusals change nothing. (The array has the capacity as its length.)
    pub as_slice-insert :
        (s : FixedSet A) (item : A)
        → IsValid size s
        → let (r, s') = insert eqv size s item in
          IsValid size s' × ((r, as_slice s') ≡ insert_spec eqv size (as_slice s) item)
    unfolding insert
    as_slice-insert s item v = ground (
      arith,
      length-as_slice size s v,
      take-set s.items s.len item,
      length-set s.items s.len item,
    )

  -- a write at a position of the slice is a write to the slice
  pub written-IsValid :
      (size : ℕ) (s : FixedSet A) (i : ℕ) (b : A)
      → IsValid size s
      → IsValid size (record s { items = set s.items i b })
  written-IsValid size s i b v = record {
    sized = length-set s.items i b ∙ v.sized;
    bounded = v.bounded;
  }

  -- What the first match of a test becomes: the write through the reference that was found.
  pub modify_first :
      {E : Type 0} (p : A → Bool) (f : A → Result E A) (s : FixedSet A) (i : ℕ)
      → position p (as_slice s) ≡ some i
      → (a : A) × (find_first p (as_slice s) ≡ some a)
        × (p a ≡ true)
        × (get_elem? (as_slice s) i ≡ some a)
        × (modify_at f i s (get_elem? s.items i) ≡ written i s (f a))
  modify_first p f s i h =
      let (a, bound, at, hit, found) = position-some p (as_slice s) i h in
      (a, found, hit, at, ap (modify_at f i s) (get_elem?-take s.len s.items i a at))

  module _ {E : Type 0} (eqv : A → A → Bool) (size : ℕ)
      (from : FixedSetError → Result E (Unit {0})) where
    -- On an item that is there, `insert_or_modify` writes what `modify` makes of it.
    pub insert_or_modify_present :
        (s : FixedSet A) (item : A) (modify : A → Result E A) (i : ℕ)
        → position (λ x. eqv x item) (as_slice s) ≡ some i
        → any (λ x. eqv x item) (as_slice s) ≡ true
        → insert_or_modify eqv size from s item modify ≡ modify_at modify i s (get_elem? s.items i)
    unfolding insert_or_modify
    insert_or_modify_present s item modify i p h = rw (h, p)

    -- On a new item it is `insert`, with the error converted.
    pub insert_or_modify_absent :
        (s : FixedSet A) (item : A) (modify : A → Result E A)
        → IsValid size s
        → any (λ x. eqv x item) (as_slice s) ≡ false
        → let (r, s') = insert_or_modify eqv size from s item modify in
          ((s.len < size)
            × (r ≡ ok tt)
            × IsValid size s'
            × (as_slice s' ≡ as_slice s ++ (item ∷ [])))
          ⊎ ((size ≤ s.len) × (r ≡ from full) × (s' ≡ s))
    unfolding insert_or_modify
    insert_or_modify_absent s item modify v h = elim (Bool-cases (leb size s.len)) [
      | inl f ↦ inr (ground arith, rw (h, f), rw (h, f))
      | inr f ↦ inl (
        ground arith,
        rw (h, f),
        rw (h, f) (ground (arith, length-set s.items s.len item)),
        rw (h, f) (take-set s.items s.len item (ground arith)),
      )
    ]
