-- ===== src/Prelude/Sort.antt =====
-- `slice::sort_by`, a stable sort, by insertion: `leq x y` says that `x` does not compare Greater.
use Prim.Native.Nat.{ℕ, ◌+◌}
use mathlib.Core.Path.{◌≡◌, refl}
use mathlib.Core.Bool.{Bool, true, false}
use mathlib.Core.List.{List, [], ◌∷◌, ◌++◌, Perm}
use mathlib.Core.List.Perm
use native.Mathlib.Omega.{arith}
use saturn_crates.Prelude.Lists.{All, All-imp}
use saturn_crates.Prelude.Tests.{Bool-cases}
use mathlib.Core.Logic.{inl, inr}

module _ {ℓ} {A : Type ℓ} where
  -- the sum of a measure over a list
  abbrev pub sum_by : (A → ℕ) → List A → ℕ
  sum_by f [] = 0
  sum_by f (x ∷ xs) = f x + sum_by f xs

  pub sum_by-append : (f : A → ℕ) (xs ys : List A) → sum_by f (xs ++ ys) ≡ sum_by f xs + sum_by f ys
  sum_by-append f [] ys = omega arith
  sum_by-append f (x ∷ xs) ys = omega (arith, sum_by-append f xs ys)

  -- every element stands before the later ones rightly
  abbrev pub IsSorted : (A → A → Bool) → List A → Type 0
  IsSorted leq [] = Unit
  IsSorted leq (x ∷ xs) = All (λ y. leq x y ≡ true) xs × IsSorted leq xs

module _ {ℓ} {A : Type ℓ} (leq : A → A → Bool) where
  unfoldable pub place : A → List A → List A
  place x [] = x ∷ []
  place x (y ∷ ys) = elim (leq x y) [ true ↦ x ∷ (y ∷ ys) | false ↦ y ∷ place x ys ]

  unfoldable pub sort_by : List A → List A
  unfolding place
  sort_by [] = []
  sort_by (x ∷ xs) = place x (sort_by xs)

  place-first : (x y : A) (ys : List A) → leq x y ≡ true → place x (y ∷ ys) ≡ x ∷ (y ∷ ys)
  unfolding place
  place-first x y ys e = cc

  place-later : (x y : A) (ys : List A) → leq x y ≡ false → place x (y ∷ ys) ≡ y ∷ place x ys
  unfolding place
  place-later x y ys e = cc

  place-perm : (x : A) (ys : List A) → Perm (place x ys) (x ∷ ys)
  unfolding place
  place-perm x [] = Perm.refl (x ∷ [])
  place-perm x (y ∷ ys) = elim (Bool-cases (leq x y)) [
    | inl e ↦ rw (place-first x y ys e) (Perm.refl (x ∷ (y ∷ ys)))
    | inr e ↦
        rw (place-later x y ys e) (Perm.trans (Perm.cons y (place-perm x ys)) (Perm.swap x y ys))
  ]

  -- Sorting rearranges.
  pub sort_by-perm : (xs : List A) → Perm (sort_by xs) xs
  unfolding sort_by
  sort_by-perm [] = Perm.refl []
  sort_by-perm (x ∷ xs) = Perm.trans (place-perm x (sort_by xs)) (Perm.cons x (sort_by-perm xs))

  pub sum_by-place : (f : A → ℕ) (x : A) (ys : List A) → sum_by f (place x ys) ≡ f x + sum_by f ys
  unfolding place
  sum_by-place f x [] = refl
  sum_by-place f x (y ∷ ys) = ground (arith, sum_by-place f x ys)

  pub sum_by-sort_by : (f : A → ℕ) (xs : List A) → sum_by f (sort_by xs) ≡ sum_by f xs
  unfolding sort_by
  sum_by-sort_by f [] = refl
  sum_by-sort_by f (x ∷ xs) = omega (arith, sum_by-place f x (sort_by xs), sum_by-sort_by f xs)

  pub All-place {κ} : (P : A → Type κ) (x : A) (ys : List A) → P x → All P ys → All P (place x ys)
  unfolding place
  All-place P x [] p a = (p, tt)
  All-place P x (y ∷ ys) p a = elim (Bool-cases (leq x y)) [
    | inl e ↦ rw (place-first x y ys e) (p, a)
    | inr e ↦ rw (place-later x y ys e) (a.0, All-place P x ys p a.1)
  ]

  pub All-sort_by {κ} : (P : A → Type κ) (xs : List A) → All P xs → All P (sort_by xs)
  unfolding sort_by
  All-sort_by P [] a = tt
  All-sort_by P (x ∷ xs) a = All-place P x (sort_by xs) a.0 (All-sort_by P xs a.1)

  module _ (total : (x y : A) → leq x y ≡ false → leq y x ≡ true)
      (trans : (x y z : A) → leq x y ≡ true → leq y z ≡ true → leq x z ≡ true) where
    place-IsSorted : (x : A) (ys : List A) → IsSorted leq ys → IsSorted leq (place x ys)
    unfolding place
    place-IsSorted x [] s = (tt, tt)
    place-IsSorted x (y ∷ ys) s = elim (Bool-cases (leq x y)) [
      | inl e ↦ rw (place-first x y ys e) ((e, All-imp (λ z h. trans x y z e h) ys s.0), s)
      | inr e ↦
          rw (place-later x y ys e)
            (All-place (λ z. leq y z ≡ true) x ys (total x y e) s.0, place-IsSorted x ys s.1)
    ]

    -- The result is sorted, if the comparison is total and transitive.
    pub sort_by-IsSorted : (xs : List A) → IsSorted leq (sort_by xs)
    unfolding sort_by
    sort_by-IsSorted [] = tt
    sort_by-IsSorted (x ∷ xs) = place-IsSorted x (sort_by xs) (sort_by-IsSorted xs)
