-- ===== src/Collections/FixedArray.antt =====
-- The macro `declare_fixed_array` of saturn-collections/src/macros/fixed_array.rs.
--
-- The macro's `$SIZE` is the argument `size`, and `default` is `<$T>::default()`. `items` has `$SIZE`
-- elements, and `count` is at most `$SIZE`, since both fields are private: so no index is out of
-- range. `count` has 16 bits.
pub mod Stands
pub mod Loops
pub mod Refines
pub mod Elements
pub mod Calls
use saturn_crates.Prelude.{
  ℕ, zero, suc, ◌+◌, ◌-◌, ◌%◌, ◌^◌, List, [], ◌∷◌, ◌++◌, map, Bool, true, false, Option, none, some,
  Result, ok, err, panicked, ltb, leb, ◌==◌, if◌then◌else◌, length, get_elem?, set, take, drop,
  replicate, min,
}

abbrev pub u16_mod : ℕ
u16_mod = 65536

pub record FixedArray {ℓ} (A : Type ℓ) : Type ℓ where
  pub items : List A
  pub count : ℕ

module _ {ℓ} {A : Type ℓ} where
  -- The capacity has to fit in `count`.
  unfoldable pub new : ℕ → A → Result ⊥ (FixedArray A)
  new size default =
      if leb size (u16_mod - 1)
      then ok (record { items = replicate size default; count = 0 })
      else panicked

  unfoldable pub is_empty : FixedArray A → Bool
  is_empty a = a.count == 0

  unfoldable pub is_full : ℕ → FixedArray A → Bool
  is_full size a = a.count == size

  -- also `iter` and `as_vec`
  abbrev pub as_slice : FixedArray A → List A
  as_slice a = take a.count a.items

  unfoldable pub get : FixedArray A → ℕ → Option A
  get a index = if ltb index a.count then get_elem? a.items index else none

  -- `if let Some(item) = a.get_mut(index) { *item = f(*item) }`
  unfoldable pub get_mut : (A → A) → FixedArray A → ℕ → FixedArray A
  get_mut f a index =
      if ltb index a.count
      then elim (get_elem? a.items index) [
        | none ↦ a
        | some x ↦ record a { items = set a.items index (f x) }
      ]
      else a

  -- `for item in a.iter_mut() { *item = f(*item) }`, also through `as_mut_slice`
  unfoldable pub iter_mut : (A → A) → FixedArray A → FixedArray A
  iter_mut f a = record a { items = map f (take a.count a.items) ++ drop a.count a.items }

  unfoldable pub add : ℕ → FixedArray A → A → Option ℕ × FixedArray A
  unfolding is_full
  add size a item = if is_full size a then (none, a) else (
    some a.count,
    record { items = set a.items a.count item; count = (a.count + 1) % u16_mod },
  )

  -- `for i in index..index + rounds { items[i] = items[i + 1] }`
  unfoldable pub shift : ℕ → ℕ → List A → List A
  shift zero index items = items
  shift (suc rounds) index items = elim (get_elem? items (index + 1)) [
    | none ↦ items
    | some x ↦ shift rounds (index + 1) (set items index x)
  ]

  unfoldable pub remove_at : ℕ → A → FixedArray A → ℕ → Option A × FixedArray A
  unfolding shift
  remove_at size default a index =
      if leb a.count index
      then (none, a)
      else (let shifted = shift (a.count - 1 - index) index a.items in
          (
            get_elem? a.items index,
            record {
              items = if ltb 0 size then set shifted (a.count - 1) default else shifted;
              count = a.count - 1;
            },
          ))

  -- the first index from `index` on, over `rounds` elements, at which the item stands
  unfoldable pub found_from : (A → A → Bool) → A → ℕ → ℕ → List A → Option ℕ
  found_from eqv item zero index items = none
  found_from eqv item (suc rounds) index items = elim (get_elem? items index) [
    | none ↦ none
    | some x ↦ elim (eqv x item) [
      | true ↦ some index
      | false ↦ found_from eqv item rounds (index + 1) items
    ]
  ]

  -- `eqv` is the item type's `PartialEq`.
  unfoldable pub remove_item : (A → A → Bool) → ℕ → A → FixedArray A → A → Bool × FixedArray A
  unfolding found_from remove_at
  remove_item eqv size default a item = elim (found_from eqv item a.count 0 a.items) [
    | none ↦ (false, a)
    | some index ↦ (true, (remove_at size default a index).1)
  ]

  -- `for i in index..index + rounds { items[i] = default }`
  unfoldable pub fill : A → ℕ → ℕ → List A → List A
  fill default zero index items = items
  fill default (suc rounds) index items = fill default rounds (index + 1) (set items index default)

  unfoldable pub clear : A → FixedArray A → FixedArray A
  unfolding fill
  clear default a = record { items = fill default a.count 0 a.items; count = 0 }

  -- the `while` loop of `retain`, which has `original_len - read_idx` rounds left
  unfoldable pub retain_from : (A → Bool) → ℕ → ℕ → ℕ → List A → List A × ℕ
  retain_from f zero read_idx write_idx items = (items, write_idx)
  retain_from f (suc rounds) read_idx write_idx items = elim (get_elem? items read_idx) [
    | none ↦ (items, write_idx)
    | some x ↦ elim (f x) [
      | true ↦
          retain_from f rounds (read_idx + 1) (write_idx + 1)
            (if read_idx == write_idx then items else set items write_idx x)
      | false ↦ retain_from f rounds (read_idx + 1) write_idx items
    ]
  ]

  unfoldable pub retain : A → (A → Bool) → FixedArray A → FixedArray A
  unfolding retain_from fill
  retain default f a =
      let (moved, write_idx) = retain_from f a.count 0 0 a.items in
      record {
        items = fill default (a.count - write_idx) write_idx moved;
        count = write_idx % u16_mod;
      }

  -- the loop of `from_slice`, with the `unwrap` of what `add` returns
  unfoldable pub add_all : ℕ → FixedArray A → List A → Result ⊥ (FixedArray A)
  unfolding add
  add_all size a [] = ok a
  add_all size a (x ∷ xs) =
      let (r, a') = add size a x in
      let rest = add_all size a' xs in elim r [ some _ ↦ rest | none ↦ panicked ]

  unfoldable pub from_slice : ℕ → A → List A → Result ⊥ (FixedArray A)
  unfolding new add_all
  from_slice size default input_slice = elim (new size default) [
    | ok fa ↦ add_all size fa (take (min (length input_slice) size) input_slice)
    | err e ↦ err e
    | panicked ↦ panicked
  ]
