-- ===== src/Collections/FixedSet.antt =====
-- saturn-collections/src/generic/fixed_set.rs.
--
-- As in FixedList, the const parameter `SIZE` is an argument and the first `len` of the `SIZE`
-- elements of `items` are the set. `eqv` is the item type's `PartialEq`, which need not be
-- equality; what the source compares with an item, a value of any type `Q`, is a test on items.
-- `default` is `T::default()`, and an index out of range would panic.
pub mod Slices
pub mod Laws
pub mod Removal
pub mod Collected
use saturn_crates.Prelude.{
  ℕ, zero, suc, ◌+◌, ◌-◌, List, [], ◌∷◌, ◌++◌, Bool, true, false, Option, none, some, Result, ok,
  err, panicked, ltb, leb, ◌==◌, if◌then◌else◌, get_elem?, set, take, replicate, any, find_first,
}
use mathlib.Core.Option
use saturn_crates.Collections.PushPop
use saturn_crates.Collections.PushPop.{PushPopError}

pub data FixedSetError : Type 0 where
  full : FixedSetError
  duplicate : FixedSetError

pub record FixedSet {ℓ} (A : Type ℓ) : Type ℓ where
  pub items : List A
  pub len : ℕ

module _ {ℓ} {A : Type ℓ} where
  -- `Iterator::position`
  abbrev pub position : (A → Bool) → List A → Option ℕ
  position p [] = none
  position p (x ∷ xs) = elim (p x) [ true ↦ some 0 | false ↦ Option.map suc (position p xs) ]

  unfoldable pub new : ℕ → A → FixedSet A
  new size default = record { items = replicate size default; len = 0 }

  unfoldable pub is_empty : FixedSet A → Bool
  is_empty s = s.len == 0

  -- also `iter`
  abbrev pub as_slice : FixedSet A → List A
  as_slice s = take s.len s.items

  unfoldable pub contains : (A → Bool) → FixedSet A → Bool
  contains p s = any p (as_slice s)

  unfoldable pub find : (A → Bool) → FixedSet A → Option A
  find p s = find_first p (as_slice s)

  -- the write through the reference to an item that `position` or `find_mut` gave
  abbrev pub written {κ} :
      {E : Type κ} → ℕ → FixedSet A → Result E A → Result E (Unit {0}) × FixedSet A
  written i s (ok b) = (ok tt, record s { items = set s.items i b })
  written i s (err e) = (err e, s)
  written i s panicked = (panicked, s)

  abbrev pub modify_at {κ} :
      {E : Type κ} → (A → Result E A) → ℕ → FixedSet A → Option A → Result E (Unit {0}) × FixedSet A
  modify_at f i s none = (panicked, s)
  modify_at f i s (some a) = written i s (f a)

  -- `if let Some(item) = s.find_mut(q) { *item = f(*item)? }`
  unfoldable pub find_mut {κ} :
      {E : Type κ} → (A → Bool) → (A → Result E A) → FixedSet A → Result E (Unit {0}) × FixedSet A
  find_mut p f s = elim (position p (as_slice s)) [
    | none ↦ (ok tt, s)
    | some i ↦ modify_at f i s (get_elem? s.items i)
  ]

  unfoldable pub insert :
      (A → A → Bool) → ℕ → FixedSet A → A → Result FixedSetError (Unit {0}) × FixedSet A
  unfolding contains
  insert eqv size s item =
      if contains (λ i. eqv i item) s
      then (err duplicate, s)
      else if leb size s.len
      then (err full, s)
      else (ok tt, record { items = set s.items s.len item; len = s.len + 1 })

  -- `from` is the error type's `From<FixedSetError>`, which may panic.
  unfoldable pub insert_or_modify {κ} :
      {E : Type κ}
      → (A → A → Bool)
      → ℕ
      → (FixedSetError → Result E (Unit {0}))
      → FixedSet A
      → A
      → (A → Result E A)
      → Result E (Unit {0}) × FixedSet A
  unfolding contains insert
  insert_or_modify eqv size from s item modify =
      if contains (λ i. eqv i item) s
      then elim (position (λ i. eqv i item) (as_slice s)) [
        | none ↦ (panicked, s)
        | some pos ↦ modify_at modify pos s (get_elem? s.items pos)
      ]
      else let (r, s') = insert eqv size s item in
        (elim r [ ok u ↦ ok u | err e ↦ from e | panicked ↦ panicked ], s')

  -- the swap with the last item, `len` being the new length
  abbrev pub swap_remove : ℕ → ℕ → List A → Option A → List A
  swap_remove pos len items none = items
  swap_remove pos len items (some last) = if pos == len then items else set items pos last

  unfoldable pub remove : (A → Bool) → FixedSet A → Option A × FixedSet A
  remove p s = elim (position p (as_slice s)) [
    | none ↦ (none, s)
    | some pos ↦ (
      get_elem? s.items pos,
      record {
        items = swap_remove pos (s.len - 1) s.items (get_elem? s.items (s.len - 1));
        len = s.len - 1;
      },
    )
  ]

  unfoldable pub pop : FixedSet A → Option A × FixedSet A
  pop s =
      if ltb 0 s.len
      then (get_elem? s.items (s.len - 1), record s { len = s.len - 1 })
      else (none, s)

  -- the loop of `try_from_iter`
  unfoldable pub insert_all :
      (A → A → Bool) → ℕ → FixedSet A → List A → Result FixedSetError (FixedSet A)
  unfolding insert
  insert_all eqv size s [] = ok s
  insert_all eqv size s (x ∷ xs) =
      let (r, s') = insert eqv size s x in
      let rest = insert_all eqv size s' xs in
      elim r [ ok _ ↦ rest | err duplicate ↦ rest | err full ↦ err full | panicked ↦ panicked ]

  unfoldable pub try_from_iter : (A → A → Bool) → ℕ → A → List A → Result FixedSetError (FixedSet A)
  unfolding insert_all new
  try_from_iter eqv size default iter = insert_all eqv size (new size default) iter

  unfoldable pub get : FixedSet A → Option A
  get s = elim (as_slice s) [ [] ↦ none | x ∷ _ ↦ some x ]

  -- the `push` of PushPopCollection, for which a duplicate is no error
  unfoldable pub push :
      (A → A → Bool) → ℕ → FixedSet A → A → Result PushPopError (Unit {0}) × FixedSet A
  unfolding insert
  push eqv size s item =
      let (r, s') = insert eqv size s item in
      (
        elim r [
          | ok u ↦ ok u
          | err full ↦ err PushPop.full
          | err duplicate ↦ ok tt
          | panicked ↦ panicked
        ],
        s',
      )
