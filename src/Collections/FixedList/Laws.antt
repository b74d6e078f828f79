-- ===== src/Collections/FixedList/Laws.antt =====
-- FixedList: the representation invariant, and each operation on the slice of live elements.
use native.Mathlib.Decide.{dec_le}
use saturn_crates.Prelude.{
  ℕ, ◌+◌, ◌≤◌, ◌<◌, ◌≡◌, ◌⊎◌, inl, inr, sym, ◌∙◌, List, [], ◌∷◌, ◌++◌, map, append_assoc,
  append-nil, none, some, Result, ok, err, panicked, leb, if◌then◌else◌, length, take, arith,
  length-set, length-replicate, length-take, take-set, take_last, overwrite, length-take-le,
  map_front,
}
use saturn_crates.Collections.FixedList.{
  FixedListError, full, FixedList, new, as_slice, iter_mut, push, pop, copy_from_slice, from_slice,
  push_all, from_iter,
}

module _ {ℓ} {A : Type ℓ} where
  pub record IsValid (size : ℕ) (l : FixedList A) : Type 0 where
    pub sized : length l.items ≡ size
    pub bounded : l.len ≤ size

  pub length-as_slice : (size : ℕ) (l : FixedList A) → IsValid size l → length (as_slice l) ≡ l.len
  length-as_slice size l v = length-take l.len l.items (omega arith)

  pub new-IsValid : (size : ℕ) (d : A) → IsValid size (new size d)
  unfolding new
  new-IsValid size d = record { sized = length-replicate size d; bounded = omega arith }

  -- the bounded stack, oldest first, that a list stands for
  abbrev pub push_spec : ℕ → List A → A → Result FixedListError (Unit {0}) × List A
  push_spec size xs x = if leb size (length xs) then (err full, xs) else (ok tt, xs ++ (x ∷ []))

  pub push-IsValid :
      (size : ℕ) (l : FixedList A) (x : A) → IsValid size l → IsValid size (push size l x).1
  unfolding push
  push-IsValid size l x v = ground (arith, length-set l.items l.len x)

  pub as_slice-push :
      (size : ℕ) (l : FixedList A) (x : A)
      → IsValid size l
      → let (r, l') = push size l x in (r, as_slice l') ≡ push_spec size (as_slice l) x
  unfolding push
  as_slice-push size l x v = ground (arith, length-as_slice size l v, take-set l.items l.len x)

  pub pop-IsValid : (size : ℕ) (l : FixedList A) → IsValid size l → IsValid size (pop l).1
  unfolding pop
  pop-IsValid size l v = ground arith

  pub as_slice-pop :
      (size : ℕ) (l : FixedList A) (xs : List A) (x : A)
      → IsValid size l
      → as_slice l ≡ xs ++ (x ∷ [])
      → ((pop l).0 ≡ some x) × (as_slice (pop l).1 ≡ xs)
  unfolding pop
  as_slice-pop size l xs x v e = ground (arith, take_last l.items l.len xs x)

  -- `pop` of an empty list returns nothing and changes nothing.
  pub pop_empty : (l : FixedList A) → l.len ≡ 0 → pop l ≡ (none, l)
  unfolding pop
  pop_empty l e = ground arith

  pub copy_from_slice-IsValid :
      (size : ℕ) (l : FixedList A) (s : List A)
      → IsValid size l
      → length s ≤ size
      → let (r, l') = copy_from_slice l s in (r ≡ ok tt) × IsValid size l' × (as_slice l' ≡ s)
  unfolding copy_from_slice
  copy_from_slice-IsValid size l s v h = ground (arith, overwrite s l.items)

  pub copy_from_slice_too_long :
      (size : ℕ) (l : FixedList A) (s : List A)
      → IsValid size l
      → size < length s
      → (copy_from_slice l s).0 ≡ panicked
  unfolding copy_from_slice
  copy_from_slice_too_long size l s v h = ground arith

  -- `from_slice` copies the slice whole, or panics if it is longer than the capacity.
  pub from_slice_lem :
      (size : ℕ) (d : A) (s : List A)
      → ((length s ≤ size)
          × ((l : FixedList A) × (from_slice size d s ≡ ok l) × IsValid size l × (as_slice l ≡ s)))
        ⊎ ((size < length s) × (from_slice size d s ≡ panicked))
  unfolding from_slice
  from_slice_lem size d s = elim (dec_le (length s) size) [
    | yes p ↦
        let (done, valid, same) =
          copy_from_slice-IsValid size (new size d) s (new-IsValid size d) p in
        inl (p, ((copy_from_slice (new size d) s).1, ground (arith, done), valid, same))
    | no p ↦ inr (
      omega arith,
      ground (arith, copy_from_slice_too_long size (new size d) s (new-IsValid size d)),
    )
  ]

  -- below the capacity a push appends
  pub push_fits :
      (size : ℕ) (l : FixedList A) (x : A)
      → IsValid size l
      → l.len < size
      → ((push size l x).0 ≡ ok tt)
        × ((push size l x).1.len ≡ l.len + 1)
        × (as_slice (push size l x).1 ≡ as_slice l ++ (x ∷ []))
  unfolding push
  push_fits size l x v h = ground (arith, take-set l.items l.len x)

  push_all_lem :
      (size : ℕ) (l : FixedList A) (xs : List A)
      → IsValid size l
      → l.len + length xs ≤ size
      → IsValid size (push_all size l xs) × (as_slice (push_all size l xs) ≡ as_slice l ++ xs)
  unfolding push_all
  push_all_lem size l [] v h = (v, sym (append-nil (as_slice l)))
  push_all_lem size l (x ∷ xs) v h =
      let (done, grown, slice) = push_fits size l x v (omega arith) in
      let (valid, all) =
        push_all_lem size (push size l x).1 xs (push-IsValid size l x v) (omega (arith, grown)) in
      (valid, all ∙ rw slice (append_assoc (as_slice l) (x ∷ []) xs))

  -- `from_iter` keeps the first `SIZE` elements of what the iterator yields.
  pub from_iter_lem :
      (size : ℕ) (d : A) (xs : List A)
      → IsValid size (from_iter size d xs) × (as_slice (from_iter size d xs) ≡ take size xs)
  unfolding from_iter new
  from_iter_lem size d xs =
      push_all_lem size (new size d) (take size xs) (new-IsValid size d)
        (omega (arith, length-take-le size xs))

  pub iter_mut-IsValid :
      (size : ℕ) (f : A → A) (l : FixedList A)
      → IsValid size l
      → IsValid size (iter_mut f l) × (as_slice (iter_mut f l) ≡ map f (as_slice l))
  unfolding iter_mut
  iter_mut-IsValid size f l v =
      let (sized, front) = map_front f l.items l.len (omega arith) in
      (record { sized = sized ∙ v.sized; bounded = v.bounded }, front)
