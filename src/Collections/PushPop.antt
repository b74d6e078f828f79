-- ===== src/Collections/PushPop.antt =====
-- saturn-collections/src/generic/push_pop.rs: the trait of collections that grow and shrink at the
-- back, as a record of its methods, with the laws that generic code relies on.
use saturn_crates.Prelude.{
  ℕ, ◌≡◌, ◌⊎◌, inl, refl, List, [], ◌∷◌, ◌++◌, Option, none, some, Result, ok, err, length,
}

pub data PushPopError : Type 0 where
  full : PushPopError

pub record PushPop (C A : Type 0) : Type 0 where
  pub push : C → A → Result PushPopError (Unit {0}) × C
  pub pop : C → Option A × C
  pub as_slice : C → List A
  pub len : C → ℕ

module _ {C A : Type 0} (p : PushPop C A) where
  -- A push appends, or is refused and changes nothing.
  abbrev pub Pushed : C → A → Result PushPopError (Unit {0}) × C → Type 0
  Pushed c a (r, c') =
      ((r ≡ ok tt) × (p.as_slice c' ≡ p.as_slice c ++ (a ∷ []))) ⊎ ((r ≡ err full) × (c' ≡ c))

  -- A collection of the trait is a stack, at its valid states.
  pub record IsPushPop : Type 1 where
    pub IsValid : C → Type 0
    pub push-IsValid : (c : C) (a : A) → IsValid c → IsValid (p.push c a).1
    pub push-Pushed : (c : C) (a : A) → IsValid c → Pushed c a (p.push c a)
    pub pop-IsValid : (c : C) → IsValid c → IsValid (p.pop c).1
    pub pop-append :
        (c : C) (xs : List A) (a : A)
        → IsValid c
        → p.as_slice c ≡ xs ++ (a ∷ [])
        → ((p.pop c).0 ≡ some a) × (p.as_slice (p.pop c).1 ≡ xs)
    pub len-as_slice : (c : C) → IsValid c → p.len c ≡ length (p.as_slice c)

-- the implementation for `Vec`, which never refuses
unfoldable pub pop_vec : {A : Type 0} → List A → Option A × List A
pop_vec [] = (none, [])
pop_vec (x ∷ []) = (some x, [])
pop_vec (x ∷ (y ∷ ys)) = let (last, rest) = pop_vec (y ∷ ys) in (last, x ∷ rest)

unfoldable pub vec_push_pop : {A : Type 0} → PushPop (List A) A
unfolding pop_vec
vec_push_pop = record {
  push = λ c a. (ok tt, c ++ (a ∷ []));
  pop = pop_vec;
  as_slice = λ c. c;
  len = length;
}

pub pop_vec-append : {A : Type 0} (xs : List A) (x : A) → pop_vec (xs ++ (x ∷ [])) ≡ (some x, xs)
unfolding pop_vec
pop_vec-append [] x = refl
pop_vec-append (y ∷ []) x = refl
pop_vec-append (y ∷ (z ∷ xs)) x = rw (pop_vec-append (z ∷ xs) x)

vec_pop :
    {A : Type 0} (c xs : List A) (a : A)
    → c ≡ xs ++ (a ∷ [])
    → ((pop_vec c).0 ≡ some a) × ((pop_vec c).1 ≡ xs)
vec_pop c xs a e = rw (e, pop_vec-append xs a) (refl, refl)

pub vec_push_pop-IsPushPop : (A : Type 0) → IsPushPop (vec_push_pop {A = A})
unfolding vec_push_pop
vec_push_pop-IsPushPop A = record {
  IsValid = λ c. Unit;
  push-IsValid = λ c a v. tt;
  push-Pushed = λ c a v. inl (refl, refl);
  pop-IsValid = λ c v. tt;
  pop-append = λ c xs a v e. vec_pop c xs a e;
  len-as_slice = λ c v. refl;
}
