-- ===== src/Collections/FixedOption.antt =====
-- The macro `declare_fixed_option` of saturn-collections/src/macros/fixed_option.rs.
--
-- `zeroed` is the item type's value of which all bytes are zero. `present` has 8 bits. The padding,
-- which is always zero, is left out.
use saturn_crates.Prelude.{
  ℕ, ◌≡◌, refl, Bool, Option, not, ◌==◌, if◌then◌else◌, Result, ok, panicked,
}

pub record FixedOption {ℓ} (A : Type ℓ) : Type ℓ where
  pub item : A
  pub present : ℕ

module _ {ℓ} {A : Type ℓ} where
  unfoldable pub none : A → FixedOption A
  none zeroed = record { item = zeroed; present = 0 }

  unfoldable pub some : A → FixedOption A
  some item = record { item = item; present = 1 }

  unfoldable pub is_some : FixedOption A → Bool
  is_some o = not (o.present == 0)

  unfoldable pub is_none : FixedOption A → Bool
  is_none o = o.present == 0

  -- also `get` and the conversion to an Option
  unfoldable pub as_ref : FixedOption A → Option A
  unfolding is_some
  as_ref o = if is_some o then Option.some o.item else Option.none

  -- `if let Some(item) = o.as_mut() { *item = f(*item) }`
  unfoldable pub as_mut : (A → A) → FixedOption A → FixedOption A
  unfolding is_some
  as_mut f o = if is_some o then record o { item = f o.item } else o

  unfoldable pub unwrap : FixedOption A → Result ⊥ A
  unfolding as_ref
  unwrap o = elim (as_ref o) [ Option.none ↦ panicked | Option.some item ↦ ok item ]

  -- the conversion from an Option
  unfoldable pub from : A → Option A → FixedOption A
  unfolding none some
  from zeroed Option.none = none zeroed
  from zeroed (Option.some item) = some item

  -- A fixed option made of an option gives that option back.
  pub as_ref-from : (zeroed : A) (o : Option A) → as_ref (from zeroed o) ≡ o
  unfolding as_ref from
  as_ref-from zeroed Option.none = refl
  as_ref-from zeroed (Option.some item) = refl
