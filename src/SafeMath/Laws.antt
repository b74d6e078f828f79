-- ===== src/SafeMath/Laws.antt =====
-- What the checked operations of saturn-safe-math return, over the whole range of the type.
use mathlib.Core.Option
use saturn_crates.Prelude.{
  ℕ, ◌+◌, ◌-◌, ◌*◌, ◌/◌, ◌^◌, ◌≤◌, ◌<◌, ◌≡◌, ◌↔◌, refl, Result, ok, err, ltb, ◌==◌, if◌then◌else◌,
  arith, Option-cases, inl, inr,
}
use saturn_crates.SafeMath.{
  MathError, addition_overflow, subtraction_overflow, multiplication_overflow, division_overflow,
  conversion_error, safe_add, safe_sub, safe_mul, safe_div, Wide, IsWide, mul_div, checked_mul,
}

pub safe_add-ok : (m a b : ℕ) {c : ℕ} → safe_add m a b ≡ ok c → (c ≡ a + b) × (c < m)
unfolding safe_add
safe_add-ok m a b h = ground arith

pub safe_add_fits : (m a b : ℕ) → a + b < m → safe_add m a b ≡ ok (a + b)
unfolding safe_add
safe_add_fits m a b h = ground arith

pub safe_sub-ok : (m a b : ℕ) {c : ℕ} → safe_sub m a b ≡ ok c → (c + b ≡ a)
unfolding safe_sub
safe_sub-ok m a b h = ground arith

pub safe_sub_fits : (m a b : ℕ) → b ≤ a → safe_sub m a b ≡ ok (a - b)
unfolding safe_sub
safe_sub_fits m a b h = ground arith

pub safe_mul_fits : (m a b : ℕ) → a * b < m → safe_mul m a b ≡ ok (a * b)
unfolding safe_mul
safe_mul_fits m a b h = ground arith

pub safe_div_zero : (m a : ℕ) → safe_div m a 0 ≡ err division_overflow
unfolding safe_div
safe_div_zero m a = refl

pub safe_div_pos : (m a b : ℕ) → 0 < b → safe_div m a b ≡ ok (a / b)
unfolding safe_div
safe_div_pos m a b h = ground arith

-- Each of the four operations gives the exact result when it is in the range of the type, and
-- otherwise its own error; division fails exactly at a zero divisor.
pub safe_ops_exact :
    (m a b c : ℕ)
    → ((safe_add m a b ≡ ok c) ↔ ((a + b ≡ c) × (c < m)))
      × ((safe_sub m a b ≡ ok c) ↔ (c + b ≡ a))
      × ((safe_mul m a b ≡ ok c) ↔ ((a * b ≡ c) × (c < m)))
      × ((safe_div m a b ≡ ok c) ↔ ((a / b ≡ c) × (0 < b)))
      × ((safe_add m a b ≡ err addition_overflow) ↔ (m ≤ a + b))
      × ((safe_sub m a b ≡ err subtraction_overflow) ↔ (a < b))
      × ((safe_mul m a b ≡ err multiplication_overflow) ↔ (m ≤ a * b))
      × ((safe_div m a b ≡ err division_overflow) ↔ (b ≡ 0))
unfolding safe_add safe_sub safe_mul safe_div
safe_ops_exact m a b c = ground arith

-- The product of two numbers of the type fits 256 bits.
product_fits : (m a b : ℕ) → m ≤ 2 ^ 128 → a < m → b < m → a * b < 2 ^ 256
product_fits m a b hm ha hb = grind arith

module _ (w : Wide) (m : ℕ) (s : IsWide m w) (small : m ≤ 2 ^ 128) where
  -- what `mul_div` is meant to be: the exact quotient, if it fits the type
  abbrev pub quotient : ℕ → ℕ → ℕ → Result MathError ℕ
  quotient a b d =
      if d == 0
      then err division_overflow
      else if ltb (a * b / d) m
      then ok (a * b / d)
      else err conversion_error

  -- For a type of at most 128 bits, `mul_div` returns the exact `a * b / d` if it fits the type; a
  -- zero divisor is `DivisionOverflow`, a quotient that does not fit is `ConversionError`, and the
  -- product itself never overflows.
  pub mul_div-eq-quotient : (a b d : ℕ) → a < m → b < m → d < m → mul_div w a b d ≡ quotient a b d
  unfolding mul_div
  mul_div-eq-quotient a b d ha hb hd = elim (Option-cases (w.mul (w.from a) (w.from b))) [
    | inl e ↦ ground (arith, facts)
    | inr (p, e) ↦ elim (Option-cases (w.div p (w.from d))) [
      | inl f ↦ ground (arith, facts, s.value-div p (w.from d))
      | inr (q, f) ↦ ground (arith, facts, s.value-div p (w.from d), s.try_into-value q)
    ]
  ]
    where
      facts :
          (a * b < 2 ^ 256)
          × (s.value (w.from a) ≡ a)
          × (s.value (w.from b) ≡ b)
          × (s.value (w.from d) ≡ d)
          × (Option.map s.value (w.mul (w.from a) (w.from b))
              ≡ checked_mul (2 ^ 256) (s.value (w.from a)) (s.value (w.from b)))
      facts = (
        product_fits m a b small ha hb,
        s.value-from a ha,
        s.value-from b hb,
        s.value-from d hd,
        s.value-mul (w.from a) (w.from b),
      )
