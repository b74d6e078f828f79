-- ===== src/Shards/Split/Dust.antt =====
-- `redistribute_sub_dust_values`: no part is dust, and nothing is lost but what is dust altogether.
use saturn_crates.Prelude.{
  ℕ, ◌+◌, ◌*◌, ◌/◌, ◌%◌, ◌≤◌, ◌<◌, ◌≡◌, refl, ap, ◌∙◌, List, [], ◌∷◌, ok, leb, ltb, length, keep,
  arith, Bool-cases, inl, inr, ◌⊎◌, All, leb→le,
}
use mathlib.Core.Path.{subst}
use saturn_crates.SafeMath.{u128_mod}
use saturn_crates.SafeMath.Laws.{safe_div_pos}
use saturn_crates.Shards.Split.{sum, join_dust, redistribute_sub_dust_values}
use saturn_crates.Shards.Split.Spread.{Raised, spread_lem}

-- Small parts and the others make up the whole.
sum-keep :
    (d : ℕ) (xs : List ℕ) → sum (keep (λ a. ltb a d) xs) + sum (keep (λ a. leb d a) xs) ≡ sum xs
sum-keep d [] = omega arith
sum-keep d (x ∷ xs) = ground (arith, sum-keep d xs)

All-keep : (d : ℕ) (xs : List ℕ) → All (λ a. d ≤ a) (keep (λ a. leb d a) xs)
All-keep d [] = tt
All-keep d (x ∷ xs) = elim (Bool-cases (leb d x)) [
  | inl e ↦ rw (e, All) (leb→le d x e, All-keep d xs)
  | inr e ↦ rw (e, All) (All-keep d xs)
]

All-Raised :
    (d extra : ℕ) (xs ys : List ℕ) → All (λ a. d ≤ a) xs → Raised extra xs ys → All (λ a. d ≤ a) ys
All-Raised d extra [] [] a r = tt
All-Raised d extra [] (y ∷ ys) a r = absurd r
All-Raised d extra (x ∷ xs) [] a r = absurd r
All-Raised d extra (x ∷ xs) (y ∷ ys) a r =
    (omega (arith, a.0, r.0.0), All-Raised d extra xs ys a.1 r.1)

-- What is left has no dust, and the sum of all, or is nothing, where all is dust.
abbrev pub Joined : ℕ → ℕ → List ℕ → Type 0
Joined d total ys = All (λ a. d ≤ a) ys × ((sum ys ≡ total) ⊎ ((ys ≡ []) × (total < d)))

division : (x n : ℕ) → 0 < n → (n * (x / n) + x % n ≡ x) × (x % n < n)
division x n pos = grind arith

join_dust_lem :
    (d small : ℕ) (xs : List ℕ)
    → All (λ a. d ≤ a) xs
    → small + sum xs < u128_mod
    → (ys : List ℕ) × (join_dust d small xs ≡ ok ys) × Joined d (small + sum xs) ys
unfolding join_dust
join_dust_lem d small [] a fits = elim (Bool-cases (leb d small)) [
  | inl e ↦ (small ∷ [], rw e refl, ((leb→le d small e, tt), inl (omega arith)))
  | inr e ↦ ([], rw e refl, (tt, inr (refl, ground arith)))
]
join_dust_lem d small (x ∷ xs) a fits =
    let n = length (x ∷ xs) in
    let (whole, under) = division small n (omega arith) in
    let (ys, run, total, raised) =
      spread_lem (small / n) (small % n) (x ∷ xs) (omega (arith, under))
        (omega (arith, whole, fits)) in
    (
      ys,
      rw (safe_div_pos u128_mod small n (omega arith), run) refl,
      (All-Raised d (small / n) (x ∷ xs) ys a raised, inl (omega (arith, total, whole))),
    )

-- No part of the result is below the limit, and its sum is that of the parts given, or it is empty,
-- where all that was given is less than the limit. (The sum fits in 128 bits.)
pub redistribute_sub_dust_values_lem :
    (d : ℕ) (xs : List ℕ)
    → sum xs < u128_mod
    → (ys : List ℕ) × (redistribute_sub_dust_values d xs ≡ ok ys) × Joined d (sum xs) ys
unfolding redistribute_sub_dust_values
redistribute_sub_dust_values_lem d xs fits =
    let parts = sum-keep d xs in
    let small = sum (keep (λ a. ltb a d) xs) in
    let kept = keep (λ a. leb d a) xs in
    let no_wrap : small % u128_mod ≡ small = omega (arith, parts, fits) in
    let (ys, run, joined) =
      join_dust_lem d small kept (All-keep d xs) (omega (arith, parts, fits)) in
    (ys, ap (λ k. join_dust d k kept) no_wrap ∙ run, subst (λ t. Joined d t ys) parts joined)
