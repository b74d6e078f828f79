-- ===== src/Collections/FixedList.antt =====
-- saturn-collections/src/generic/fixed_list.rs.
--
-- The const parameter `SIZE` is the first argument of what reads it. The backing array `items`
-- always has `SIZE` elements; only the first `len` of them are the list. An index out of range, or
-- a slice longer than the array, panics.
pub mod Laws
pub mod Stack
pub mod Trait
use saturn_crates.Prelude.{
  ℕ, ◌+◌, ◌-◌, List, [], ◌∷◌, ◌++◌, map, Bool, Option, none, some, Result, ok, err, panicked, ltb,
  leb, ◌==◌, if◌then◌else◌, length, get_elem?, set, take, drop, replicate,
}

pub data FixedListError : Type 0 where
  full : FixedListError

pub record FixedList {ℓ} (A : Type ℓ) : Type ℓ where
  pub items : List A
  pub len : ℕ

module _ {ℓ} {A : Type ℓ} where
  -- `default` is `T::default()`
  unfoldable pub new : ℕ → A → FixedList A
  new size default = record { items = replicate size default; len = 0 }

  unfoldable pub is_empty : FixedList A → Bool
  is_empty l = l.len == 0

  -- also `iter`
  abbrev pub as_slice : FixedList A → List A
  as_slice l = take l.len l.items

  -- `for item in l.iter_mut() { *item = f(*item) }`, also through `as_mut_slice`
  unfoldable pub iter_mut : (A → A) → FixedList A → FixedList A
  iter_mut f l = record l { items = map f (take l.len l.items) ++ drop l.len l.items }

  unfoldable pub push : ℕ → FixedList A → A → Result FixedListError (Unit {0}) × FixedList A
  push size l item =
      if leb size l.len
      then (err full, l)
      else (ok tt, record { items = set l.items l.len item; len = l.len + 1 })

  unfoldable pub pop : FixedList A → Option A × FixedList A
  pop l =
      if ltb 0 l.len
      then (get_elem? l.items (l.len - 1), record l { len = l.len - 1 })
      else (none, l)

  -- The length is set before the array is sliced, and the slice panics past the array's end.
  unfoldable pub copy_from_slice : FixedList A → List A → Result ⊥ (Unit {0}) × FixedList A
  copy_from_slice l slice =
      if leb (length slice) (length l.items)
      then (ok tt, record { items = slice ++ drop (length slice) l.items; len = length slice })
      else (panicked, record l { len = length slice })

  unfoldable pub from_slice : ℕ → A → List A → Result ⊥ (FixedList A)
  unfolding copy_from_slice new
  from_slice size default slice =
      let (r, l) = copy_from_slice (new size default) slice in
      elim r [ ok _ ↦ ok l | err e ↦ err e | panicked ↦ panicked ]

  -- the loop of `from_iter`, which drops what a push returns
  unfoldable pub push_all : ℕ → FixedList A → List A → FixedList A
  push_all size l [] = l
  push_all size l (x ∷ xs) = push_all size (push size l x).1 xs

  unfoldable pub from_iter : ℕ → A → List A → FixedList A
  from_iter size default iter = push_all size (new size default) (take size iter)
