-- ===== src/Shards/Split/Spread.antt =====
-- `spread`: every amount grows by the same, or by one more.
use saturn_crates.Prelude.{
  ℕ, suc, ◌+◌, ◌-◌, ◌*◌, ◌≤◌, ◌<◌, ◌≡◌, refl, List, [], ◌∷◌, ok, ltb, length, arith, Bool-cases,
  inl, inr,
}
use saturn_crates.SafeMath.{u128_mod}
use saturn_crates.SafeMath.Laws.{safe_add_fits}
use saturn_crates.Shards.Split.{sum, spread}

-- lists of the same length, related element by element
abbrev pub Pointwise : (ℕ → ℕ → Type 0) → List ℕ → List ℕ → Type 0
Pointwise R [] [] = Unit
Pointwise R (x ∷ xs) (y ∷ ys) = R x y × Pointwise R xs ys
Pointwise R _ _ = ⊥

pub length-Pointwise :
    (R : ℕ → ℕ → Type 0) (xs ys : List ℕ) → Pointwise R xs ys → length ys ≡ length xs
length-Pointwise R [] [] p = refl
length-Pointwise R [] (y ∷ ys) p = absurd p
length-Pointwise R (x ∷ xs) [] p = absurd p
length-Pointwise R (x ∷ xs) (y ∷ ys) p = omega (arith, length-Pointwise R xs ys p.1)

abbrev pub Raised : ℕ → List ℕ → List ℕ → Type 0
Raised extra = Pointwise (λ x y. (x + extra ≤ y) × (y ≤ x + extra + 1))

suc_mul : (n e : ℕ) → suc n * e ≡ e + n * e
suc_mul n e = grind arith

-- If the whole fits, the call succeeds; it hands out all of it, and evenly.
pub spread_lem :
    (extra left : ℕ) (xs : List ℕ)
    → left ≤ length xs
    → sum xs + length xs * extra + left < u128_mod
    → (ys : List ℕ) × (spread extra left xs ≡ ok ys)
      × (sum ys ≡ sum xs + length xs * extra + left)
      × Raised extra xs ys
unfolding spread
spread_lem extra left [] l h = ([], refl, omega (arith, l), tt)
spread_lem extra left (x ∷ xs) l h = elim (Bool-cases (ltb 0 left)) [
  | inl some_left ↦
      let (ys, run, total, raised) =
        spread_lem extra (left - 1) xs (omega (arith, l))
          (ground (arith, suc_mul (length xs) extra)) in
      (
        (x + extra + 1) ∷ ys,
        rw
            (
              safe_add_fits u128_mod x extra (omega (arith, h, suc_mul (length xs) extra)),
              some_left,
              safe_add_fits u128_mod (x + extra) 1 (ground (arith, suc_mul (length xs) extra)),
              run,
            )
            refl,
        ground (arith, suc_mul (length xs) extra),
        ((omega arith, omega arith), raised),
      )
  | inr none_left ↦
      let (ys, run, total, raised) =
        spread_lem extra (left - 1) xs (omega (arith, l))
          (ground (arith, suc_mul (length xs) extra)) in
      (
        (x + extra) ∷ ys,
        rw
            (
              safe_add_fits u128_mod x extra (omega (arith, h, suc_mul (length xs) extra)),
              none_left,
              run,
            )
            refl,
        ground (arith, suc_mul (length xs) extra),
        ((omega arith, omega arith), raised),
      )
]
