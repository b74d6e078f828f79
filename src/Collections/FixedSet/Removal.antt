-- ===== src/Collections/FixedSet/Removal.antt =====
-- FixedSet: removal, which moves the last element to the place of the removed one.
use mathlib.Core.List.{Perm, perm_middle}
use mathlib.Core.List.Perm
use mathlib.Core.Path.{subst}
use saturn_crates.Prelude.{
  ℕ, zero, suc, ◌+◌, ◌-◌, ◌≤◌, ◌<◌, ◌≡◌, refl, ◌∙◌, ◌⊎◌, List, [], ◌∷◌, ◌++◌, Bool, false, none,
  some, ◌==◌, length, get_elem?, get_elem?-lt, set, take, any, find_first, arith, length-set,
  take-suc, append-nil, Bool-cases, Option-cases, inl, inr,
}
use saturn_crates.Collections.FixedSet.{FixedSet, position, as_slice, swap_remove, remove}
use saturn_crates.Collections.FixedSet.Laws.{IsValid, length-as_slice}
use saturn_crates.Collections.FixedSet.Slices.{
  position-some, position-any, get_elem?-take, take-set_lt,
}

module _ {ℓ} {A : Type ℓ} where
  -- an element at the end is an element at the front
  last_first : (xs : List A) (l : A) → Perm (xs ++ (l ∷ [])) (l ∷ xs)
  last_first xs l = subst (λ k. Perm (xs ++ (l ∷ [])) (l ∷ k)) (append-nil xs) (perm_middle xs [])

  -- what is overwritten is exchanged for what is written
  exchanged :
      (xs : List A) (i : ℕ) (a b : A) → get_elem? xs i ≡ some a → Perm (b ∷ xs) (a ∷ set xs i b)
  exchanged [] i a b h = cc
  exchanged (x ∷ xs) zero a b h =
      subst (λ y. Perm (b ∷ (x ∷ xs)) (y ∷ (b ∷ xs))) (some_eq h) (Perm.swap x b xs)
    where
      some_eq : some x ≡ some a → x ≡ a
      some_eq e = cc
  exchanged (x ∷ xs) (suc i) a b h =
      Perm.trans (Perm.swap x b xs)
        (Perm.trans (Perm.cons x (exchanged xs i a b h)) (Perm.swap a x (set xs i b)))

  get_elem?-take_lt :
      (n : ℕ) (xs : List A) (i : ℕ) → i < n → get_elem? (take n xs) i ≡ get_elem? xs i
  get_elem?-take_lt zero xs i h = absurd (omega arith)
  get_elem?-take_lt (suc n) [] i h = refl
  get_elem?-take_lt (suc n) (x ∷ xs) zero h = refl
  get_elem?-take_lt (suc n) (x ∷ xs) (suc i) h = get_elem?-take_lt n xs i (omega arith)

  -- The removal in the array, the new length being `n`.
  swap_remove-Perm :
      (items : List A) (n pos : ℕ) (a last : A)
      → pos ≤ n
      → get_elem? items pos ≡ some a
      → get_elem? items n ≡ some last
      → Perm (take (suc n) items) (a ∷ take n (swap_remove pos n items (some last)))
  swap_remove-Perm items n pos a last h at end = elim (Bool-cases (pos == n)) [
    | inl e ↦
        rw (e, take-suc items n a (subst (λ k. get_elem? items k ≡ some a) (ground arith) at))
          (last_first (take n items) a)
    | inr e ↦
        rw (e, take-suc items n last end, take-set_lt n items pos last)
          (Perm.trans (last_first (take n items) last) (
            exchanged (take n items) pos a last
              (get_elem?-take_lt n items pos (ground arith) ∙ at)))
  ]

  length-swap_remove :
      (items : List A) (n pos : ℕ) (last : A)
      → length (swap_remove pos n items (some last)) ≡ length items
  length-swap_remove items n pos last = elim (Bool-cases (pos == n)) [
    | inl e ↦ rw e refl
    | inr e ↦ rw e (length-set items pos last)
  ]

  nothing : (p : A → Bool) (xs : List A) → position p xs ≡ none → any p xs ≡ false
  nothing p xs h = elim (Bool-cases (any p xs)) [
    | inl e ↦ let (i, at) = position-any p xs e in absurd cc
    | inr e ↦ e
  ]

  -- Removal keeps the invariant of the array. It gives the first element that matches and leaves the
  -- others, up to order; where none matches, it gives none and changes nothing.
  pub remove-Perm :
      (size : ℕ) (p : A → Bool) (s : FixedSet A)
      → IsValid size s
      → let (r, s') = remove p s in
        IsValid size s'
        × (((any p (as_slice s) ≡ false) × (r ≡ none) × (s' ≡ s))
            ⊎ ((a : A) × (r ≡ some a)
                × (find_first p (as_slice s) ≡ some a)
                × (s'.len + 1 ≡ s.len)
                × Perm (as_slice s) (a ∷ as_slice s')))
  unfolding remove
  remove-Perm size p s v = elim (Option-cases (position p (as_slice s))) [
    | inl absent ↦ rw (absent, remove) (v, inl (nothing p (as_slice s) absent, refl, refl))
    | inr (pos, found) ↦
        let (a, bound, here, hit, first) = position-some p (as_slice s) pos found in
        let at = get_elem?-take s.len s.items pos a here in
        let fits : s.len ≤ length s.items = omega arith in
        let inside : pos < s.len = omega (arith, bound, length-as_slice size s v) in
        let (last, end) = get_elem?-lt s.items (s.len - 1) (omega (arith, inside, fits)) in
        let n : suc (s.len - 1) ≡ s.len = omega (arith, inside) in
        rw (found, at, end, remove)
          (
            record {
              sized = length-swap_remove s.items (s.len - 1) pos last ∙ v.sized;
              bounded = omega arith;
            },
            inr (
              a,
              refl,
              first,
              omega (arith, inside),
              subst
                  (λ k.
                    Perm (take k s.items)
                      (a ∷ take (s.len - 1) (swap_remove pos (s.len - 1) s.items (some last))))
                  n
                  (swap_remove-Perm s.items (s.len - 1) pos a last (omega (arith, inside)) at end),
            ),
          )
  ]
