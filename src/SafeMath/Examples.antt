-- ===== src/SafeMath/Examples.antt =====
-- saturn-safe-math: runs at concrete numbers.
use saturn_crates.Prelude.{
  ℕ, ◌+◌, ◌*◌, ◌/◌, ◌^◌, ◌≤◌, ◌<◌, ◌≡◌, ◌↔◌, refl, ok, err, Option, none, some, ltb, if◌then◌else◌,
  arith,
}
use mathlib.Core.Option
use saturn_crates.SafeMath.{
  safe_add, safe_sub, safe_mul, safe_div, u64_mod, addition_overflow, subtraction_overflow,
  multiplication_overflow, division_overflow, checked_mul, checked_div, Wide, IsWide, mul_div,
}
use saturn_crates.SafeMath.Laws.{quotient, mul_div-eq-quotient, safe_ops_exact}

add_max : safe_add u64_mod 18_446_744_073_709_551_615 1 ≡ err addition_overflow
unfolding safe_add
add_max = refl

abbrev numbers : Wide
numbers = record {
  U256 = ℕ;
  from = λ a. a;
  mul = checked_mul (2 ^ 256);
  div = checked_div (2 ^ 256);
  try_into = λ a. if ltb a u64_mod then some a else none;
}

map_id : (o : Option ℕ) → Option.map (λ a. a) o ≡ o
map_id none = refl
map_id (some a) = refl

numbers-IsWide : IsWide u64_mod numbers
numbers-IsWide = record {
  value = λ a. a;
  value-from = λ a h. refl;
  value-mul = λ a b. map_id (checked_mul (2 ^ 256) a b);
  value-div = λ a b. map_id (checked_div (2 ^ 256) a b);
  try_into-value = λ a. refl;
}

mul_div-eq-quotient_example :
    mul_div numbers 10000000000000000000 6 4
    ≡ quotient numbers u64_mod numbers-IsWide (omega arith) 10000000000000000000 6 4
mul_div-eq-quotient_example =
    mul_div-eq-quotient numbers u64_mod numbers-IsWide (omega arith) 10000000000000000000 6 4
      (omega arith) (omega arith) (omega arith)

safe_ops_exact_example :
    ((safe_add u64_mod 7 5 ≡ ok 2) ↔ ((7 + 5 ≡ 2) × (2 < u64_mod)))
    × ((safe_sub u64_mod 7 5 ≡ ok 2) ↔ (2 + 5 ≡ 7))
    × ((safe_mul u64_mod 7 5 ≡ ok 2) ↔ ((7 * 5 ≡ 2) × (2 < u64_mod)))
    × ((safe_div u64_mod 7 5 ≡ ok 2) ↔ ((7 / 5 ≡ 2) × (0 < 5)))
    × ((safe_add u64_mod 7 5 ≡ err addition_overflow) ↔ (u64_mod ≤ 7 + 5))
    × ((safe_sub u64_mod 7 5 ≡ err subtraction_overflow) ↔ (7 < 5))
    × ((safe_mul u64_mod 7 5 ≡ err multiplication_overflow) ↔ (u64_mod ≤ 7 * 5))
    × ((safe_div u64_mod 7 5 ≡ err division_overflow) ↔ (◌≡◌ {A = ℕ} 5 0))
safe_ops_exact_example = safe_ops_exact u64_mod 7 5 2
