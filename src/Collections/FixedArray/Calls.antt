-- ===== src/Collections/FixedArray/Calls.antt =====
-- FixedArray: a run of calls is the run of the list's operations.
use saturn_crates.Prelude.{
  ℕ, zero, suc, ◌≤◌, ◌==◌, ◌≡◌, refl, ap, ap₂, List, [], ◌∷◌, ◌++◌, map, Bool, true, false, Option,
  none, some, ltb, if◌then◌else◌, length, get_elem?, keep, arith, Option-cases, inl, inr,
}
use saturn_crates.Collections.FixedSet.{position}
use saturn_crates.Collections.FixedArray
use saturn_crates.Collections.FixedArray.{FixedArray, u16_mod, found_from}
use saturn_crates.Collections.FixedArray.Stands.{Stands, as_slice-Stands}
use saturn_crates.Collections.FixedArray.Refines.{
  erase_at, add-Stands, remove_at-Stands, clear-Stands, retain-Stands,
}
use saturn_crates.Collections.FixedArray.Elements.{
  change_at, remove_item-Stands, iter_mut-Stands, get-Stands, get_mut-Stands,
}

-- the methods of an array; `iter` and `as_vec` give what `as_slice` gives, and `as_mut_slice` and `get_mut`
-- are what is done through the references that they give
pub data Call {ℓ} (A : Type ℓ) : Type ℓ where
  add : A → Call A
  remove_at : ℕ → Call A
  remove_item : A → Call A
  retain : (A → Bool) → Call A
  iter_mut : (A → A) → Call A
  get : ℕ → Call A
  get_mut : (A → A) → ℕ → Call A
  as_slice : Call A
  is_empty : Call A
  is_full : Call A
  clear : Call A

-- what they return
pub data Reply {ℓ} (A : Type ℓ) : Type ℓ where
  index : Option ℕ → Reply A
  removed : Option A → Reply A
  element : Option A → Reply A
  elements : List A → Reply A
  was_there : Bool → Reply A
  nothing : Reply A

module _ {ℓ} {A : Type ℓ} where
  module _ (eqv : A → A → Bool) (size : ℕ) (d : A) where
    abbrev pub call : Call A → FixedArray A → Reply A × FixedArray A
    call (add x) a = let (r, a') = FixedArray.add size a x in (index r, a')
    call (remove_at i) a = let (r, a') = FixedArray.remove_at size d a i in (removed r, a')
    call (remove_item x) a =
        let (r, a') = FixedArray.remove_item eqv size d a x in (was_there r, a')
    call (retain f) a = (nothing, FixedArray.retain d f a)
    call (iter_mut f) a = (nothing, FixedArray.iter_mut f a)
    call (get i) a = (element (FixedArray.get a i), a)
    call (get_mut f i) a = (nothing, FixedArray.get_mut f a i)
    call as_slice a = (elements (FixedArray.as_slice a), a)
    call is_empty a = (was_there (FixedArray.is_empty a), a)
    call is_full a = (was_there (FixedArray.is_full size a), a)
    call clear a = (nothing, FixedArray.clear d a)

    unfoldable pub run : List (Call A) → FixedArray A → List (Reply A) × FixedArray A
    run [] a = ([], a)
    run (c ∷ cs) a = let (r, a') = call c a in let (rs, a'') = run cs a' in (r ∷ rs, a'')

  -- the same on a list of at most `size` elements
  module _ (eqv : A → A → Bool) (size : ℕ) where
    abbrev pub list_call : Call A → List A → Reply A × List A
    list_call (add x) xs =
        if ltb (length xs) size
        then (index (some (length xs)), xs ++ (x ∷ []))
        else (index none, xs)
    list_call (remove_at i) xs = (removed (get_elem? xs i), erase_at xs i)
    list_call (remove_item x) xs = elim (position (λ y. eqv y x) xs) [
      | none ↦ (was_there false, xs)
      | some i ↦ (was_there true, erase_at xs i)
    ]
    list_call (retain f) xs = (nothing, keep f xs)
    list_call (iter_mut f) xs = (nothing, map f xs)
    list_call (get i) xs = (element (get_elem? xs i), xs)
    list_call (get_mut f i) xs = (nothing, change_at f i xs)
    list_call as_slice xs = (elements xs, xs)
    list_call is_empty xs = (was_there (length xs == 0), xs)
    list_call is_full xs = (was_there (length xs == size), xs)
    list_call clear xs = (nothing, [])

    unfoldable pub list_run : List (Call A) → List A → List (Reply A) × List A
    list_run [] xs = ([], xs)
    list_run (c ∷ cs) xs =
        let (r, xs') = list_call c xs in let (rs, xs'') = list_run cs xs' in (r ∷ rs, xs'')

  module _ (eqv : A → A → Bool) (size : ℕ) (d : A) where
    past_end :
        (xs : List A) (i : ℕ) → length xs ≤ i → (get_elem? xs i ≡ none) × (erase_at xs i ≡ xs)
    past_end [] i h = (refl, refl)
    past_end (x ∷ xs) zero h = absurd (omega arith)
    past_end (x ∷ xs) (suc i) h = let (a, b) = past_end xs i (omega arith) in (a, ap (λ t. x ∷ t) b)

    call-Stands :
        (c : Call A) (a : FixedArray A) (xs : List A)
        → Stands size d a xs
        → ((call eqv size d c a).0 ≡ (list_call eqv size c xs).0)
          × Stands size d (call eqv size d c a).1 (list_call eqv size c xs).1
    unfolding FixedArray.is_empty FixedArray.is_full
    call-Stands (add x) a xs s = elim (add-Stands size d a xs x s) [
      | inl (less, r, t) ↦
          let room : ltb (length xs) size ≡ true = ground (arith, less) in rw room (ap index r, t)
      | inr (full, same) ↦
          let no_room : ltb (length xs) size ≡ false = ground (arith, full) in
          rw (no_room, same) (refl, s)
    ]
    call-Stands (remove_at i) a xs s = elim (remove_at-Stands size d a xs i s) [
      | inl (less, r, t) ↦ (ap removed r, t)
      | inr (out, same) ↦
          let (missing, left) = past_end xs i out in rw (same, missing, left) (refl, s)
    ]
    call-Stands (remove_item x) a xs s = elim (Option-cases (position (λ y. eqv y x) xs)) [
      | inl e ↦
          let h = rw e at (remove_item-Stands eqv size d a xs x s) in
          rw (e, list_call) (ap was_there h.0, h.1)
      | inr (i, e) ↦
          let h = rw e at (remove_item-Stands eqv size d a xs x s) in
          rw (e, list_call) (ap was_there h.0, h.1)
    ]
    call-Stands (retain f) a xs s = (refl, retain-Stands size d f a xs s)
    call-Stands (iter_mut f) a xs s = (refl, iter_mut-Stands eqv size d f a xs s)
    call-Stands (get i) a xs s = (ap element (get-Stands size d a xs i s), s)
    call-Stands (get_mut f i) a xs s = (refl, get_mut-Stands size d f a xs i s)
    call-Stands as_slice a xs s = (ap elements (as_slice-Stands size d a xs s), s)
    call-Stands is_empty a xs s = (ap (λ n. was_there (n == 0)) s.counted, s)
    call-Stands is_full a xs s = (ap (λ n. was_there (n == size)) s.counted, s)
    call-Stands clear a xs s = (refl, clear-Stands size d a xs s)

    -- A run of calls of the methods, in any order, on an array that stands for a list replies as the run on the list does, and leaves
    -- an array that stands for the list that is left, with the default in every unused slot. (The array's
    -- size is below 2^16.)
    pub run-list_run :
        (cs : List (Call A)) (a : FixedArray A) (xs : List A)
        → Stands size d a xs
        → ((run eqv size d cs a).0 ≡ (list_run eqv size cs xs).0)
          × Stands size d (run eqv size d cs a).1 (list_run eqv size cs xs).1
    unfolding run list_run
    run-list_run [] a xs s = (refl, s)
    run-list_run (c ∷ cs) a xs s =
        let (r, t) = call-Stands c a xs s in
        let (rs, u) = run-list_run cs (call eqv size d c a).1 (list_call eqv size c xs).1 t in
        (ap₂ (λ k l. k ∷ l) r rs, u)
