-- ===== src/Collections/FixedSet/Slices.antt =====
-- Lemmas on the slice of live elements that the laws of FixedSet rest on.
use saturn_crates.Prelude.{
  ℕ, zero, suc, ◌<◌, ◌≡◌, refl, ap, List, [], ◌∷◌, ◌++◌, Bool, true, false, none, some, length,
  get_elem?, set, take, any, find_first, arith, Bool-cases, inl, inr,
}
use saturn_crates.Collections.FixedSet.{position}

module _ {ℓ} {A : Type ℓ} where
  -- no two elements are equivalent
  abbrev pub Distinct : (A → A → Bool) → List A → Type 0
  Distinct eqv [] = Unit
  Distinct eqv (x ∷ xs) = (any (eqv x) xs ≡ false) × Distinct eqv xs

  pub any-append :
      (p : A → Bool) (xs : List A) (y : A)
      → any p xs ≡ false
      → p y ≡ false
      → any p (xs ++ (y ∷ [])) ≡ false
  any-append p [] y h k = ground arith
  any-append p (x ∷ xs) y h k = ground (arith, any-append p xs y)

  pub Distinct-append :
      (eqv : A → A → Bool) (xs : List A) (y : A)
      → Distinct eqv xs
      → any (λ x. eqv x y) xs ≡ false
      → Distinct eqv (xs ++ (y ∷ []))
  Distinct-append eqv [] y d h = (refl, tt)
  Distinct-append eqv (x ∷ xs) y d h = elim (Bool-cases (eqv x y)) [
    | inl e ↦ ground arith
    | inr e ↦ (any-append (eqv x) xs y d.0 e, Distinct-append eqv xs y d.1 (ground arith))
  ]

  -- What `position` finds: an index in range, of the element that `find` gives.
  pub position-some :
      (p : A → Bool) (xs : List A) (i : ℕ)
      → position p xs ≡ some i
      → (a : A) × (i < length xs)
        × (get_elem? xs i ≡ some a)
        × (p a ≡ true)
        × (find_first p xs ≡ some a)
  position-some p [] i h = cc
  position-some p (x ∷ xs) zero h = elim (Bool-cases (p x)) [
    | inl e ↦ (x, omega arith, refl, e, ground arith)
    | inr e ↦ absurd (ground arith)
  ]
  position-some p (x ∷ xs) (suc i) h = elim (Bool-cases (p x)) [
    | inl e ↦ absurd (ground arith)
    | inr e ↦
        let (a, bound, at, hit, found) = position-some p xs i (ground arith) in
        (a, omega (arith, bound), at, hit, ground (arith, found))
  ]

  pub position-any :
      (p : A → Bool) (xs : List A) → any p xs ≡ true → (i : ℕ) × (position p xs ≡ some i)
  position-any p [] h = cc
  position-any p (x ∷ xs) h = elim (Bool-cases (p x)) [
    | inl e ↦ (0, ground arith)
    | inr e ↦ let (i, at) = position-any p xs (ground arith) in (suc i, ground arith)
  ]

  pub find_first-any : (p : A → Bool) (xs : List A) → any p xs ≡ false → find_first p xs ≡ none
  find_first-any p [] h = refl
  find_first-any p (x ∷ xs) h = ground (arith, find_first-any p xs)

  pub find_first-append :
      (p : A → Bool) (xs : List A) (y : A)
      → find_first p (xs ++ (y ∷ [])) ≡ elim (find_first p xs) [
        | some a ↦ some a
        | none ↦ elim (p y) [ true ↦ some y | false ↦ none ]
      ]
  find_first-append p [] y = refl
  find_first-append p (x ∷ xs) y = ground (arith, find_first-append p xs y)

  -- after a write at the first match, a matching value is found there
  pub find_first-set_hit :
      (p : A → Bool) (xs : List A) (i : ℕ) (b : A)
      → position p xs ≡ some i
      → p b ≡ true
      → find_first p (set xs i b) ≡ some b
  find_first-set_hit p [] i b h k = cc
  find_first-set_hit p (x ∷ xs) zero b h k = ground arith
  find_first-set_hit p (x ∷ xs) (suc i) b h k = ground (arith, find_first-set_hit p xs i b)

  -- a write that neither removes nor adds a match is not seen
  pub find_first-set_miss :
      (q : A → Bool) (xs : List A) (i : ℕ) (a b : A)
      → get_elem? xs i ≡ some a
      → q a ≡ false
      → q b ≡ false
      → find_first q (set xs i b) ≡ find_first q xs
  find_first-set_miss q [] i a b h k l = refl
  find_first-set_miss q (x ∷ xs) zero a b h k l = ground arith
  find_first-set_miss q (x ∷ xs) (suc i) a b h k l = ground (arith, find_first-set_miss q xs i a b)

  pub take-set_lt :
      (n : ℕ) (xs : List A) (i : ℕ) (b : A) → take n (set xs i b) ≡ set (take n xs) i b
  take-set_lt zero xs i b = refl
  take-set_lt (suc n) [] i b = refl
  take-set_lt (suc n) (x ∷ xs) zero b = refl
  take-set_lt (suc n) (x ∷ xs) (suc i) b = ap (λ t. x ∷ t) (take-set_lt n xs i b)

  pub get_elem?-take :
      (n : ℕ) (xs : List A) (i : ℕ) (a : A)
      → get_elem? (take n xs) i ≡ some a
      → get_elem? xs i ≡ some a
  get_elem?-take zero xs i a h = cc
  get_elem?-take (suc n) [] i a h = h
  get_elem?-take (suc n) (x ∷ xs) zero a h = h
  get_elem?-take (suc n) (x ∷ xs) (suc i) a h = get_elem?-take n xs i a h
