-- ===== src/Collections/FixedArray/Stands.antt =====
-- FixedArray: the list that an array stands for.
use saturn_crates.Prelude.{
  ℕ, zero, suc, ◌+◌, ◌-◌, ◌≤◌, ◌<◌, ◌≡◌, refl, ap, ◌∙◌, List, [], ◌∷◌, ◌++◌, some, length,
  get_elem?, set, take, replicate, arith, length-append, append_assoc,
}
use saturn_crates.Collections.FixedArray.{FixedArray, u16_mod, as_slice}

module _ {ℓ} {A : Type ℓ} where
  -- The items of the list stand first, and every slot behind them holds the default.
  pub record Stands (size : ℕ) (default : A) (a : FixedArray A) (xs : List A) : Type ℓ where
    pub slots : a.items ≡ xs ++ replicate (size - length xs) default
    pub counted : a.count ≡ length xs
    pub bounded : length xs ≤ size
    pub small : size < u16_mod

  pub take-append : (xs ys : List A) → take (length xs) (xs ++ ys) ≡ xs
  take-append [] ys = refl
  take-append (x ∷ xs) ys = ap (λ t. x ∷ t) (take-append xs ys)

  pub get_elem?-append :
      (xs : List A) (y : A) (ys : List A) (i : ℕ)
      → i ≡ length xs
      → get_elem? (xs ++ (y ∷ ys)) i ≡ some y
  get_elem?-append [] y ys zero h = refl
  get_elem?-append [] y ys (suc i) h = absurd (omega arith)
  get_elem?-append (x ∷ xs) y ys zero h = absurd (omega arith)
  get_elem?-append (x ∷ xs) y ys (suc i) h = get_elem?-append xs y ys i (omega arith)

  pub set-append :
      (xs : List A) (y z : A) (ys : List A) (i : ℕ)
      → i ≡ length xs
      → set (xs ++ (y ∷ ys)) i z ≡ xs ++ (z ∷ ys)
  set-append [] y z ys zero h = refl
  set-append [] y z ys (suc i) h = absurd (omega arith)
  set-append (x ∷ xs) y z ys zero h = absurd (omega arith)
  set-append (x ∷ xs) y z ys (suc i) h = ap (λ t. x ∷ t) (set-append xs y z ys i (omega arith))

  pub replicate-append : (n m : ℕ) (d : A) → replicate n d ++ replicate m d ≡ replicate (n + m) d
  replicate-append zero m d = ground arith
  replicate-append (suc n) m d =
      let more : suc (n + m) ≡ suc n + m = omega arith in
      ap (λ t. d ∷ t) (replicate-append n m d) ∙ ap (λ k. replicate k d) more

  -- an element may stand at the end of what is before it or at the start of what is behind it
  pub snoc_assoc : (xs : List A) (y : A) (ys : List A) → (xs ++ (y ∷ [])) ++ ys ≡ xs ++ (y ∷ ys)
  snoc_assoc xs y ys = append_assoc xs (y ∷ []) ys

  pub length-snoc : (xs : List A) (y : A) → length (xs ++ (y ∷ [])) ≡ length xs + 1
  length-snoc xs y = omega (arith, length-append xs (y ∷ []))

  pub as_slice-Stands :
      (size : ℕ) (d : A) (a : FixedArray A) (xs : List A) → Stands size d a xs → as_slice a ≡ xs
  as_slice-Stands size d a xs s =
      rw (s.slots, s.counted) (take-append xs (replicate (size - length xs) d))

  -- Two arrays that stand for one list are equal, also in the slots that are not used.
  pub Stands-injective :
      (size : ℕ) (d : A) (a b : FixedArray A) (xs : List A)
      → Stands size d a xs
      → Stands size d b xs
      → a ≡ b
  Stands-injective size d a b xs s t = cc (s.slots, s.counted, t.slots, t.counted)
