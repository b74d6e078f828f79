-- ===== src/Shards/Split/Needs.antt =====
-- `needs`: what is missing to the target, and the sum of that.
use saturn_crates.Prelude.{
  ℕ, suc, ◌+◌, ◌-◌, ◌*◌, ◌≤◌, ◌<◌, ◌≡◌, refl, ap, List, [], ◌∷◌, Result, ok, ltb, if◌then◌else◌,
  length, map, arith, Bool-cases, inl, inr,
}
use saturn_crates.SafeMath.{MathError, u128_mod, safe_sub}
use saturn_crates.SafeMath.Laws.{safe_add_fits, safe_sub_fits}
use saturn_crates.Shards.Split.{sum, needs, total_current}

-- what each amount lacks
abbrev pub lacks : ℕ → List ℕ → List ℕ
lacks desired = map (λ c. desired - c)

-- what is read of shards that can all be read
abbrev pub reads : List ℕ → List (Result MathError ℕ)
reads = map ok

pub total_current_lem :
    (cs : List ℕ) (total : ℕ)
    → total + sum cs < u128_mod
    → total_current (reads cs) total ≡ ok (cs, total + sum cs)
unfolding total_current
total_current_lem [] total h = ap (λ t. ok ([], t)) (omega arith)
total_current_lem (c ∷ cs) total h =
    rw
      (
        safe_add_fits u128_mod total c (omega (arith, h)),
        total_current_lem cs (total + c) (omega (arith, h)),
      )
      (ap (λ t. ok (c ∷ cs, t)) (omega arith))

pub needs_lem :
    (desired : ℕ) (cs : List ℕ) (total : ℕ)
    → total + sum (lacks desired cs) < u128_mod
    → needs desired cs total ≡ ok (lacks desired cs, total + sum (lacks desired cs))
unfolding needs
needs_lem desired [] total h = ap (λ t. ok ([], t)) (omega arith)
needs_lem desired (c ∷ cs) total h =
    rw
      (
        one,
        safe_add_fits u128_mod total (desired - c) (omega (arith, h)),
        needs_lem desired cs (total + (desired - c)) (omega (arith, h)),
      )
      (ap (λ t. ok (lacks desired (c ∷ cs), t)) (omega arith))
  where
    one : (if ltb c desired then safe_sub u128_mod desired c else ok 0) ≡ ok (desired - c)
    one = elim (Bool-cases (ltb c desired)) [
      | inl less ↦ rw (less, safe_sub_fits u128_mod desired c (ground arith)) refl
      | inr more ↦ rw more (ap ok (ground arith))
    ]

-- What is missing together, and what is held, is at least the target for all.
pub lacks-covers :
    (desired : ℕ) (cs : List ℕ) → length cs * desired ≤ sum (lacks desired cs) + sum cs
lacks-covers desired [] = omega arith
lacks-covers desired (c ∷ cs) = ground (arith, lacks-covers desired cs, suc_mul (length cs) desired)
  where
    suc_mul : (n e : ℕ) → suc n * e ≡ e + n * e
    suc_mul n e = grind arith

pub lacks-le : (desired : ℕ) (cs : List ℕ) → sum (lacks desired cs) ≤ length cs * desired
lacks-le desired [] = omega arith
lacks-le desired (c ∷ cs) = ground (arith, lacks-le desired cs, suc_mul (length cs) desired)
  where
    suc_mul : (n e : ℕ) → suc n * e ≡ e + n * e
    suc_mul n e = grind arith
