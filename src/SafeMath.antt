-- ===== src/SafeMath.antt =====
-- saturn-safe-math/src/lib.rs: checked arithmetic that reports what overflowed.
--
-- `T` is an unsigned machine integer, a number below its modulus `m` (2 ^ 64 for `u64` and `usize`,
-- 2 ^ 128 for `u128`); on these the `num` traits are the standard library's `checked_*` methods.
-- `U256` belongs to the crate primitive_types, so `mul_div` takes it as a parameter, `Wide`.
pub mod Laws
mod Examples
use saturn_crates.Prelude.{
  ℕ, ◌+◌, ◌-◌, ◌*◌, ◌/◌, ◌^◌, ◌<◌, ◌≡◌, Option, none, some, Result, ok, err, panicked, ltb, leb,
  ◌==◌, if◌then◌else◌, try_,
}
use saturn_crates.Prelude.Exec.{ok_or}
use mathlib.Core.Option

pub data MathError : Type 0 where
  addition_overflow : MathError
  subtraction_overflow : MathError
  multiplication_overflow : MathError
  division_overflow : MathError
  conversion_error : MathError

abbrev pub u32_mod : ℕ
u32_mod = 2 ^ 32

abbrev pub u64_mod : ℕ
u64_mod = 2 ^ 64

abbrev pub u128_mod : ℕ
u128_mod = 2 ^ 128

module _ (m : ℕ) where
  abbrev pub checked_add : ℕ → ℕ → Option ℕ
  checked_add a b = if ltb (a + b) m then some (a + b) else none

  abbrev pub checked_sub : ℕ → ℕ → Option ℕ
  checked_sub a b = if leb b a then some (a - b) else none

  abbrev pub checked_mul : ℕ → ℕ → Option ℕ
  checked_mul a b = if ltb (a * b) m then some (a * b) else none

  abbrev pub checked_div : ℕ → ℕ → Option ℕ
  checked_div a b = if b == 0 then none else some (a / b)

  unfoldable pub safe_add : ℕ → ℕ → Result MathError ℕ
  safe_add a b = ok_or addition_overflow (checked_add a b)

  unfoldable pub safe_sub : ℕ → ℕ → Result MathError ℕ
  safe_sub a b = ok_or subtraction_overflow (checked_sub a b)

  unfoldable pub safe_mul : ℕ → ℕ → Result MathError ℕ
  safe_mul a b = ok_or multiplication_overflow (checked_mul a b)

  unfoldable pub safe_div : ℕ → ℕ → Result MathError ℕ
  safe_div a b = ok_or division_overflow (checked_div a b)

-- `primitive_types::U256` and its conversions from and to `T`
pub record Wide : Type 1 where
  pub U256 : Type 0
  pub from : ℕ → U256
  pub mul : U256 → U256 → Option U256
  pub div : U256 → U256 → Option U256
  pub try_into : U256 → Option ℕ

-- What its documentation says: 256-bit unsigned numbers, whose checked operations and conversions
-- fail exactly when the result does not fit.
pub record IsWide (m : ℕ) (w : Wide) : Type 0 where
  pub value : w.U256 → ℕ
  pub value-from : (a : ℕ) → a < m → value (w.from a) ≡ a
  pub value-mul :
      (a b : w.U256) → Option.map value (w.mul a b) ≡ checked_mul (2 ^ 256) (value a) (value b)
  pub value-div :
      (a b : w.U256) → Option.map value (w.div a b) ≡ checked_div (2 ^ 256) (value a) (value b)
  pub try_into-value :
      (a : w.U256) → w.try_into a ≡ (if ltb (value a) m then some (value a) else none)

unfoldable pub mul_div : Wide → ℕ → ℕ → ℕ → Result MathError ℕ
mul_div w mul_a mul_b div =
    try_ (ok_or multiplication_overflow (w.mul (w.from mul_a) (w.from mul_b))) λ mul.
      try_ (ok_or division_overflow (w.div mul (w.from div)))
        λ res. ok_or conversion_error (w.try_into res)
