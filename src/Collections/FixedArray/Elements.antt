-- ===== src/Collections/FixedArray/Elements.antt =====
-- FixedArray: `remove_item`, `iter_mut`, `get` and `get_mut` on the list that an array stands for.
use saturn_crates.Prelude.{
  ℕ, zero, suc, ◌+◌, ◌-◌, ◌≤◌, ◌<◌, set, ◌≡◌, refl, sym, ap, ap₂, ◌∙◌, List, [], ◌∷◌, ◌++◌, map,
  Bool, true, false, Option, none, some, ltb, if◌then◌else◌, length, get_elem?, take, drop,
  replicate, arith, get_elem?-lt, Bool-cases, inl, inr,
}
use mathlib.Core.Option
use mathlib.Core.Path.{subst}
use saturn_crates.Collections.FixedSet.{position}
use saturn_crates.Collections.FixedSet.Slices.{position-some}
use saturn_crates.Collections.FixedArray
use saturn_crates.Collections.FixedArray.{FixedArray, u16_mod, found_from}
use saturn_crates.Collections.FixedArray.Stands.{
  Stands, get_elem?-append, snoc_assoc, length-snoc, take-append,
}
use saturn_crates.Collections.FixedArray.Refines.{erase_at, remove_at-Stands, slots_of}

later_by_one :
    (r : Option ℕ) (i : ℕ)
    → ◌≡◌ {A = Option ℕ}
        (elim r [ none ↦ none | some k ↦ some (i + 1 + k) ])
        (elim (Option.map suc r) [ none ↦ none | some k ↦ some (i + k) ])
later_by_one none i = refl
later_by_one (some k) i = ap some (omega arith)

from_start : (r : Option ℕ) → ◌≡◌ {A = Option ℕ} (elim r [ none ↦ none | some k ↦ some (0 + k) ]) r
from_start none = refl
from_start (some k) = ap some (omega arith)

module _ {ℓ} {A : Type ℓ} where
  found_from_lem :
      (eqv : A → A → Bool) (item : A) (xs before after : List A) (i : ℕ)
      → i ≡ length before
      → found_from eqv item (length xs) i (before ++ (xs ++ after))
        ≡ elim (position (λ x. eqv x item) xs) [ none ↦ none | some k ↦ some (i + k) ]
  unfolding found_from
  found_from_lem eqv item [] before after i h = refl
  found_from_lem eqv item (x ∷ xs) before after i h =
      let here = get_elem?-append before x (xs ++ after) i h in
      elim (Bool-cases (eqv x item)) [
        | inl hit ↦ rw (here, hit, found_from, position) (ap some (omega arith))
        | inr miss ↦
            rw (here, miss, found_from, position)
              (ap (found_from eqv item (length xs) (i + 1))
                  (sym (snoc_assoc before x (xs ++ after)))
                ∙ found_from_lem eqv item xs (before ++ (x ∷ [])) after (i + 1)
                    (omega (arith, h, length-snoc before x))
                ∙ later_by_one (position (λ x. eqv x item) xs) i)
      ]

  drop-append : (xs ys : List A) → drop (length xs) (xs ++ ys) ≡ ys
  drop-append [] ys = refl
  drop-append (x ∷ xs) ys = drop-append xs ys

  length-map : (f : A → A) (xs : List A) → length (map f xs) ≡ length xs
  length-map f [] = refl
  length-map f (x ∷ xs) = ap suc (length-map f xs)

  module _ (eqv : A → A → Bool) (size : ℕ) (d : A) where
    pub remove_item-Stands :
        (a : FixedArray A) (xs : List A) (x : A)
        → Stands size d a xs
        → let (r, a') = FixedArray.remove_item eqv size d a x in
          elim (position (λ y. eqv y x) xs) as (λ _. Type ℓ) [
            | none ↦ (r ≡ false) × Stands size d a' xs
            | some i ↦ (r ≡ true) × Stands size d a' (erase_at xs i)
          ]
    unfolding FixedArray.remove_item
    remove_item-Stands a xs x s =
        let search : found_from eqv x a.count 0 a.items ≡ position (λ y. eqv y x) xs =
          ap₂ (λ n k. found_from eqv x n 0 k) s.counted s.slots
          ∙ found_from_lem eqv x xs [] (replicate (size - length xs) d) 0 refl
          ∙ from_start (position (λ y. eqv y x) xs) in
        go (position (λ y. eqv y x) xs) refl search
      where
        go :
            (p : Option ℕ)
            → position (λ y. eqv y x) xs ≡ p
            → found_from eqv x a.count 0 a.items ≡ p
            → elim p as (λ _. Type ℓ) [
              | none ↦
                  ((FixedArray.remove_item eqv size d a x).0 ≡ false)
                  × Stands size d (FixedArray.remove_item eqv size d a x).1 xs
              | some i ↦
                  ((FixedArray.remove_item eqv size d a x).0 ≡ true)
                  × Stands size d (FixedArray.remove_item eqv size d a x).1 (erase_at xs i)
            ]
        go none at e = rw (e, FixedArray.remove_item) (refl, s)
        go (some i) at e =
            let less = (position-some (λ y. eqv y x) xs i at).1 in
            elim (remove_at-Stands size d a xs i s) [
              | inl (_, _, t) ↦ rw (e, FixedArray.remove_item) (refl, t)
              | inr (out, _) ↦ absurd (omega (arith, less, out))
            ]

    pub iter_mut-Stands :
        (f : A → A) (a : FixedArray A) (xs : List A)
        → Stands size d a xs
        → Stands size d (FixedArray.iter_mut f a) (map f xs)
    unfolding FixedArray.iter_mut
    iter_mut-Stands f a xs s =
        slots_of size d (FixedArray.iter_mut f a) (map f xs) (size - length xs)
          (ap₂ (λ n k. map f (take n k) ++ drop n k) s.counted s.slots
            ∙ ap₂ (λ k l. map f k ++ l) (take-append xs (replicate (size - length xs) d))
                (drop-append xs (replicate (size - length xs) d)))
          (s.counted ∙ sym (length-map f xs)) (omega (arith, s.bounded, length-map f xs)) s.small

  -- the list with the element at an index changed, if there is one
  abbrev pub change_at : (A → A) → ℕ → List A → List A
  change_at f i [] = []
  change_at f zero (x ∷ xs) = f x ∷ xs
  change_at f (suc i) (x ∷ xs) = x ∷ change_at f i xs

  -- an index in range is one of the first list
  get_front :
      (xs ys : List A) (i : ℕ)
      → (if ltb i (length xs) then get_elem? (xs ++ ys) i else none) ≡ get_elem? xs i
  get_front [] ys i = ground arith
  get_front (x ∷ xs) ys zero = ground arith
  get_front (x ∷ xs) ys (suc i) = ground (arith, get_front xs ys i)

  change_front :
      (f : A → A) (xs ys : List A) (i : ℕ) (x : A)
      → i < length xs
      → get_elem? (xs ++ ys) i ≡ some x
      → set (xs ++ ys) i (f x) ≡ change_at f i xs ++ ys
  change_front f [] ys i x h e = absurd (omega arith)
  change_front f (y ∷ xs) ys zero x h e = ap (λ k. f k ∷ (xs ++ ys)) (cc)
  change_front f (y ∷ xs) ys (suc i) x h e =
      ap (λ t. y ∷ t) (change_front f xs ys i x (omega arith) e)

  change_past_end : (f : A → A) (xs : List A) (i : ℕ) → length xs ≤ i → change_at f i xs ≡ xs
  change_past_end f [] i h = refl
  change_past_end f (x ∷ xs) zero h = absurd (omega arith)
  change_past_end f (x ∷ xs) (suc i) h = ap (λ t. x ∷ t) (change_past_end f xs i (omega arith))

  length-change_at : (f : A → A) (xs : List A) (i : ℕ) → length (change_at f i xs) ≡ length xs
  length-change_at f [] i = refl
  length-change_at f (x ∷ xs) zero = refl
  length-change_at f (x ∷ xs) (suc i) = ap suc (length-change_at f xs i)

  module _ (size : ℕ) (d : A) where
    pub get-Stands :
        (a : FixedArray A) (xs : List A) (i : ℕ)
        → Stands size d a xs
        → FixedArray.get a i ≡ get_elem? xs i
    unfolding FixedArray.get
    get-Stands a xs i s = rw (s.counted, s.slots) (get_front xs (replicate (size - length xs) d) i)

    pub get_mut-Stands :
        (f : A → A) (a : FixedArray A) (xs : List A) (i : ℕ)
        → Stands size d a xs
        → Stands size d (FixedArray.get_mut f a i) (change_at f i xs)
    unfolding FixedArray.get_mut
    get_mut-Stands f a xs i s = elim (Bool-cases (ltb i a.count)) [
      | inr out ↦ rw out (
          subst (Stands size d a) (sym (change_past_end f xs i (ground (arith, out, s.counted)))) s)
      | inl inside ↦
          let unused = replicate (size - length xs) d in
          let less : i < length xs = ground (arith, inside, s.counted) in
          let (x, at) = get_elem?-lt xs i less in
          let here : get_elem? (xs ++ unused) i ≡ some x = ground (arith, get_front xs unused i) in
          let there : get_elem? a.items i ≡ some x = ap (λ k. get_elem? k i) s.slots ∙ here in
          rw (inside, there)
            (slots_of size d (record a { items = set a.items i (f x) }) (change_at f i xs)
              (size - length xs)
              (ap (λ k. set k i (f x)) s.slots ∙ change_front f xs unused i x less here)
              (s.counted ∙ sym (length-change_at f xs i))
              (omega (arith, s.bounded, length-change_at f xs i)) s.small)
    ]
