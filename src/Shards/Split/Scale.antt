-- ===== src/Shards/Split/Scale.antt =====
-- `scale`: the parts add up to the amount, and none is more than what is needed.
use saturn_crates.Prelude.{ℕ, ◌+◌, ◌-◌, ◌*◌, ◌/◌, ◌≤◌, ◌<◌, ◌≡◌, refl, ap, List, [], ◌∷◌, ok, arith}
use native.Mathlib.Nat.{add-mul-div_right}
use saturn_crates.SafeMath.{u128_mod}
use saturn_crates.SafeMath.Laws.{safe_add_fits, safe_sub_fits, safe_mul_fits}
use saturn_crates.Shards.Split.{sum, scale}
use saturn_crates.Shards.Split.Spread.{Pointwise}

div_le : (a b t : ℕ) → a ≤ b → 0 < t → a / t ≤ b / t
div_le a b t h pos = grind arith

div_add_mul : (x n t : ℕ) → 0 < t → (x + n * t) / t ≡ x / t + n
div_add_mul x n t pos = add-mul-div_right x n pos

-- rounding down loses nothing that a need could notice
div_step : (a s n t : ℕ) → a ≤ t → 0 < t → (a * (s + n)) / t ≤ (a * s) / t + n
div_step a s n t h pos =
    let split : a * (s + n) ≡ a * s + a * n = grind arith in
    let less : a * n ≤ n * t = grind arith in
    rw split (
      omega (
        arith,
        div_le (a * s + a * n) (a * s + n * t) t (omega (arith, less)) pos,
        div_add_mul (a * s) n t pos,
      ))

mul_div_cancel : (a t : ℕ) → 0 < t → (a * t) / t ≡ a
mul_div_cancel a t pos = grind arith

mul_le : (a b c : ℕ) → b ≤ c → a * b ≤ a * c
mul_le a b c h = grind arith

add_zero : (s : ℕ) → s + 0 ≡ s
add_zero s = omega arith

add_assoc : (s n k : ℕ) → s + (n + k) ≡ s + n + k
add_assoc s n k = omega arith

-- If the product with the whole need fits, the call succeeds: the parts add up to the amount, as far as
-- the needs go, and no part is more than its need.
pub scale_lem :
    (amount t : ℕ) (ns : List ℕ) (s : ℕ)
    → amount ≤ t
    → 0 < t
    → t < u128_mod
    → amount * t < u128_mod
    → s + sum ns ≤ t
    → (parts : List ℕ) × (scale amount t ns ((amount * s) / t) s ≡ ok parts)
      × (sum parts + (amount * s) / t ≡ (amount * (s + sum ns)) / t)
      × Pointwise (λ n p. p ≤ n) ns parts
unfolding scale
scale_lem amount t [] s small pos fits product le =
    ([], refl, omega (arith, ap (λ k. (amount * k) / t) (add_zero s)), tt)
scale_lem amount t (n ∷ ns) s small pos fits product le =
    let (parts, run, total, bounded) =
      scale_lem amount t ns (s + n) small pos fits product (omega (arith, le)) in
    let step = div_step amount s n t small pos in
    let grows =
      div_le (amount * s) (amount * (s + n)) t (mul_le amount s (s + n) (omega arith)) pos in
    let here = mul_le amount (s + n) t (omega (arith, le)) in
    (
      ((amount * (s + n)) / t - (amount * s) / t) ∷ parts,
      rw
          (
            safe_add_fits u128_mod s n (omega (arith, le, fits)),
            safe_mul_fits u128_mod amount (s + n) (omega (arith, here, product)),
            safe_sub_fits u128_mod ((amount * (s + n)) / t) ((amount * s) / t) grows,
            run,
          )
          refl,
      omega (arith, total, grows, ap (λ k. (amount * k) / t) (add_assoc s n (sum ns))),
      (omega (arith, step), bounded),
    )
