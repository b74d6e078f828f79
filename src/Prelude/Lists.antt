-- ===== src/Prelude/Lists.antt =====
-- Lists measured and indexed by native numbers, under the library's names: what slices and
-- fixed arrays of the source become.
use Prim.Native.Nat.{ℕ, zero, suc, ◌+◌, ◌-◌, ◌≤◌, ◌<◌}
use mathlib.Core.Path.{◌≡◌, refl, ap, sym, ◌∙◌}
use mathlib.Core.Logic.{◌≢◌, ◌⊎◌, inl, inr}
use mathlib.Core.Bool.{Bool, true, false}
use mathlib.Core.List.{List, [], ◌∷◌, ◌++◌, map}
use mathlib.Core.Option.{Option, none, some}
use native.Mathlib.Numerals.{add-one}
use native.Mathlib.Omega.{arith}

module _ {ℓ} {A : Type ℓ} where
  abbrev pub length : List A → ℕ
  length [] = 0
  length (x ∷ xs) = suc (length xs)

  abbrev pub get_elem? : List A → ℕ → Option A
  get_elem? [] i = none
  get_elem? (x ∷ xs) zero = some x
  get_elem? (x ∷ xs) (suc i) = get_elem? xs i

  -- A write out of bounds changes nothing; the callers test the index first.
  abbrev pub set : List A → ℕ → A → List A
  set [] i v = []
  set (x ∷ xs) zero v = v ∷ xs
  set (x ∷ xs) (suc i) v = x ∷ set xs i v

  abbrev pub take : ℕ → List A → List A
  take zero xs = []
  take (suc n) [] = []
  take (suc n) (x ∷ xs) = x ∷ take n xs

  abbrev pub drop : ℕ → List A → List A
  drop zero xs = xs
  drop (suc n) [] = []
  drop (suc n) (x ∷ xs) = drop n xs

  abbrev pub replicate : ℕ → A → List A
  replicate zero a = []
  replicate (suc n) a = a ∷ replicate n a

  -- the elements that pass a Boolean test (`Iterator::filter`, `Vec::retain`)
  abbrev pub keep : (A → Bool) → List A → List A
  keep p [] = []
  keep p (x ∷ xs) = elim (p x) [ true ↦ x ∷ keep p xs | false ↦ keep p xs ]

  abbrev pub any : (A → Bool) → List A → Bool
  any p [] = false
  any p (x ∷ xs) = elim (p x) [ true ↦ true | false ↦ any p xs ]

  -- `Iterator::find`
  abbrev pub find_first : (A → Bool) → List A → Option A
  find_first p [] = none
  find_first p (x ∷ xs) = elim (p x) [ true ↦ some x | false ↦ find_first p xs ]

  -- a predicate at every element
  abbrev pub All {κ} : (A → Type κ) → List A → Type κ
  All P [] = Unit
  All P (x ∷ xs) = P x × All P xs

  pub length-append : (xs ys : List A) → length (xs ++ ys) ≡ length xs + length ys
  length-append [] ys = omega arith
  length-append (x ∷ xs) ys = omega (arith, length-append xs ys)

  pub length-set : (xs : List A) (i : ℕ) (v : A) → length (set xs i v) ≡ length xs
  length-set [] i v = refl
  length-set (x ∷ xs) zero v = refl
  length-set (x ∷ xs) (suc i) v = ap suc (length-set xs i v)

  pub length-replicate : (n : ℕ) (a : A) → length (replicate n a) ≡ n
  length-replicate zero a = refl
  length-replicate (suc n) a = ap suc (length-replicate n a)

  pub length-take : (n : ℕ) (xs : List A) → n ≤ length xs → length (take n xs) ≡ n
  length-take zero xs h = refl
  length-take (suc n) [] h = absurd (omega arith)
  length-take (suc n) (x ∷ xs) h = omega (arith, length-take n xs)

  pub take-length : (xs : List A) → take (length xs) xs ≡ xs
  take-length [] = refl
  take-length (x ∷ xs) = ap (λ t. x ∷ t) (take-length xs)

  take-suc-set :
      (xs : List A) (n : ℕ) (v : A)
      → n < length xs
      → take (suc n) (set xs n v) ≡ take n xs ++ (v ∷ [])
  take-suc-set [] n v h = absurd (omega arith)
  take-suc-set (x ∷ xs) zero v h = refl
  take-suc-set (x ∷ xs) (suc n) v h = ap (λ t. x ∷ t) (take-suc-set xs n v (omega arith))

  -- Writing just past a prefix extends it by that element.
  pub take-set :
      (xs : List A) (n : ℕ) (v : A)
      → n < length xs
      → take (n + 1) (set xs n v) ≡ take n xs ++ (v ∷ [])
  take-set xs n v h = rw add-one (take-suc-set xs n v h)

  -- A prefix is its last element behind the shorter prefix.
  pub take-suc :
      (xs : List A) (n : ℕ) (v : A)
      → get_elem? xs n ≡ some v
      → take (suc n) xs ≡ take n xs ++ (v ∷ [])
  take-suc [] n v h = cc
  take-suc (x ∷ xs) zero v h = ground arith
  take-suc (x ∷ xs) (suc n) v h = ap (λ t. x ∷ t) (take-suc xs n v h)

  pub get_elem?-lt : (xs : List A) (n : ℕ) → n < length xs → (v : A) × (get_elem? xs n ≡ some v)
  get_elem?-lt [] n h = absurd (omega arith)
  get_elem?-lt (x ∷ xs) zero h = (x, refl)
  get_elem?-lt (x ∷ xs) (suc n) h = get_elem?-lt xs n (omega arith)

  pub All-append {κ} : (P : A → Type κ) (xs ys : List A) → All P xs → All P ys → All P (xs ++ ys)
  All-append P [] ys a b = b
  All-append P (x ∷ xs) ys a b = (a.0, All-append P xs ys a.1 b)

  pub All-imp {κ μ} :
      {P : A → Type κ} {Q : A → Type μ}
      → ((x : A) → P x → Q x)
      → (xs : List A) → All P xs
      → All Q xs
  All-imp f [] a = tt
  All-imp f (x ∷ xs) a = (f x a.0, All-imp f xs a.1)

module _ {ℓ} {A : Type ℓ} where
  pub append_last_ne_nil : (xs : List A) (x : A) → xs ++ (x ∷ []) ≢ []
  append_last_ne_nil [] x = λ e. cc
  append_last_ne_nil (y ∷ xs) x = λ e. cc

  -- Two lists with a last element are equal only if both parts are.
  pub append_last_injective :
      (xs ys : List A) (x y : A) → xs ++ (x ∷ []) ≡ ys ++ (y ∷ []) → (xs ≡ ys) × (x ≡ y)
  append_last_injective [] [] x y e = (refl, cc)
  append_last_injective [] (b ∷ ys) x y e = absurd (append_last_ne_nil ys y (sym (cc)))
  append_last_injective (a ∷ xs) [] x y e = absurd (append_last_ne_nil xs x (cc))
  append_last_injective (a ∷ xs) (b ∷ ys) x y e =
      let (rest, last) = append_last_injective xs ys x y (cc) in (cc, last)

  -- A prefix that ends in `x` is longer than none, and one shorter it is what stands before `x`.
  pub take_last :
      (items : List A) (n : ℕ) (xs : List A) (x : A)
      → n ≤ length items
      → take n items ≡ xs ++ (x ∷ [])
      → (0 < n) × (get_elem? items (n - 1) ≡ some x) × (take (n - 1) items ≡ xs)
  take_last items zero xs x h e = absurd (append_last_ne_nil xs x (sym e))
  take_last items (suc n) xs x h e =
      let (v, at) = get_elem?-lt items n h in
      let (front, last) =
        append_last_injective (take n items) xs v x (sym (take-suc items n v at) ∙ e) in
      let k : suc n - 1 ≡ n = omega arith in (omega arith, rw (k, at) (ap some last), rw k front)

  -- An array overwritten from its start by `s`: its length, and its first part.
  pub overwrite :
      (s items : List A)
      → length s ≤ length items
      → (length (s ++ drop (length s) items) ≡ length items)
        × (take (length s) (s ++ drop (length s) items) ≡ s)
  overwrite [] items h = (refl, refl)
  overwrite (x ∷ s) [] h = absurd (omega arith)
  overwrite (x ∷ s) (y ∷ items) h =
      let (l, t) = overwrite s items (omega arith) in (ap suc l, ap (λ t. x ∷ t) t)

  pub length-take-le : (n : ℕ) (xs : List A) → length (take n xs) ≤ n
  length-take-le zero xs = omega arith
  length-take-le (suc n) [] = omega arith
  length-take-le (suc n) (x ∷ xs) = omega (arith, length-take-le n xs)

  -- An array with its first `n` elements changed by `f`: its length, and its first part.
  pub map_front :
      (f : A → A) (items : List A) (n : ℕ)
      → n ≤ length items
      → (length (map f (take n items) ++ drop n items) ≡ length items)
        × (take n (map f (take n items) ++ drop n items) ≡ map f (take n items))
  map_front f items zero h = (refl, refl)
  map_front f [] (suc n) h = absurd (omega arith)
  map_front f (x ∷ items) (suc n) h =
      let (l, t) = map_front f items n (omega arith) in (ap suc l, ap (λ t. f x ∷ t) t)

  -- A list is empty or ends in an element.
  pub last_cases : (l : List A) → (l ≡ []) ⊎ ((xs : List A) × (x : A) × (l ≡ xs ++ (x ∷ [])))
  last_cases [] = inl refl
  last_cases (y ∷ l) = elim (last_cases l) [
    | inl e ↦ inr ([], y, ap (λ t. y ∷ t) e)
    | inr (xs, x, e) ↦ inr (y ∷ xs, x, ap (λ t. y ∷ t) e)
  ]

  -- What a write changes: the element at its index, and no other.
  pub get_elem?-set_self :
      (xs : List A) (i : ℕ) (v x : A) → get_elem? xs i ≡ some x → get_elem? (set xs i v) i ≡ some v
  get_elem?-set_self [] i v x h = cc
  get_elem?-set_self (y ∷ xs) zero v x h = refl
  get_elem?-set_self (y ∷ xs) (suc i) v x h = get_elem?-set_self xs i v x h

  pub get_elem?-set_ne :
      (xs : List A) (i j : ℕ) (v : A) → i ≢ j → get_elem? (set xs i v) j ≡ get_elem? xs j
  get_elem?-set_ne [] i j v h = refl
  get_elem?-set_ne (y ∷ xs) zero zero v h = absurd (omega (arith, h))
  get_elem?-set_ne (y ∷ xs) zero (suc j) v h = refl
  get_elem?-set_ne (y ∷ xs) (suc i) zero v h = refl
  get_elem?-set_ne (y ∷ xs) (suc i) (suc j) v h = get_elem?-set_ne xs i j v (omega (arith, h))
