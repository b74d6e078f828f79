-- ===== src/Prelude/Exec.antt =====
-- `Result` with panics, and the monads of code that fails and of code that also changes state.
use mathlib.Core.Path.{◌≡◌, refl}
use mathlib.Core.Logic.{◌⊎◌, inl, inr}
use mathlib.Core.Option.{Option, none, some}
use mathlib.Core.Bool.{Bool, true, false}
use saturn_crates.Prelude.Tests.{if◌then◌else◌}

-- `Result<T, E>` of a call, or the panic that ends it.
pub data Result {ℓ κ} (E : Type ℓ) (A : Type κ) : Type (ℓ ⊔ κ) where
  ok : A → Result E A
  err : E → Result E A
  panicked : Result E A

module _ {ℓ κ μ} {E : Type ℓ} {A : Type κ} {B : Type μ} where
  -- the `?` operator
  abbrev pub try_ : Result E A → (A → Result E B) → Result E B
  try_ (ok a) f = f a
  try_ (err e) f = err e
  try_ panicked f = panicked

module _ {ℓ κ μ} {E : Type ℓ} {F : Type κ} {A : Type μ} where
  abbrev pub map_err : (E → F) → Result E A → Result F A
  map_err f (ok a) = ok a
  map_err f (err e) = err (f e)
  map_err f panicked = panicked

module _ {ℓ κ} {E : Type ℓ} {A : Type κ} where
  abbrev pub ok_or : E → Option A → Result E A
  ok_or e none = err e
  ok_or e (some a) = ok a

  pub ok-injective : {a b : A} → ◌≡◌ {A = Result E A} (ok a) (ok b) → a ≡ b
  ok-injective h = cc

  pub Result-cases :
      (r : Result E A) → ((a : A) × (r ≡ ok a)) ⊎ (((e : E) × (r ≡ err e)) ⊎ (r ≡ panicked))
  Result-cases (ok a) = inl (a, refl)
  Result-cases (err e) = inr (inl (e, refl))
  Result-cases panicked = inr (inr refl)

module _ {ℓ κ μ} {E : Type ℓ} {F : Type κ} {A : Type μ} where
  pub map_err-ok : (f : E → F) (r : Result E A) (a : A) → map_err f r ≡ ok a → r ≡ ok a
  map_err-ok f (ok b) a h = cc
  map_err-ok f (err e) a h = absurd cc
  map_err-ok f panicked a h = absurd cc

-- what a chain needs in order to succeed
module _ {ℓ κ μ} {E : Type ℓ} {A : Type κ} {B : Type μ} where
  pub try-ok :
      (r : Result E A) (k : A → Result E B) (b : B)
      → try_ r k ≡ ok b
      → (a : A) × ((r ≡ ok a) × (k a ≡ ok b))
  try-ok (ok a) k b h = (a, (refl, h))
  try-ok (err e) k b h = absurd cc
  try-ok panicked k b h = absurd cc

module _ {ℓ κ} {E : Type ℓ} {A : Type κ} where
  pub unless-ok :
      (t : Bool) (e : E) (r : Result E A) (a : A)
      → (if t then err e else r) ≡ ok a
      → (t ≡ false) × (r ≡ ok a)
  unless-ok true e r a h = absurd cc
  unless-ok false e r a h = (refl, h)

  pub when-ok :
      (t : Bool) (e : E) (r : Result E A) (a : A)
      → (if t then r else err e) ≡ ok a
      → (t ≡ true) × (r ≡ ok a)
  when-ok true e r a h = (refl, h)
  when-ok false e r a h = absurd cc

  pub asserted : (t : Bool) (r : Result E A) → t ≡ true → (if t then r else panicked) ≡ r
  asserted true r h = refl
  asserted false r h = absurd cc

  pub assert-ok :
      (t : Bool) (r : Result E A) (a : A)
      → (if t then r else panicked) ≡ ok a
      → (t ≡ true) × (r ≡ ok a)
  assert-ok true r a h = (refl, h)
  assert-ok false r a h = absurd cc

-- Code that changes a state `S` and may fail. What was changed before a failure stays changed.
abbrev pub M {ℓ κ μ} : Type ℓ → Type κ → Type μ → Type (ℓ ⊔ κ ⊔ μ)
M S E A = S → Result E A × S

module _ {ℓ κ μ ν} {S : Type ℓ} {E : Type κ} {A : Type μ} {B : Type ν} where
  abbrev pub continue : Result E A → (A → M S E B) → M S E B
  continue (ok a) f s = f a s
  continue (err e) f s = (err e, s)
  continue panicked f s = (panicked, s)

  infixl 5 ◌>>=◌ ◌>>◌
  abbrev pub ◌>>=◌ : M S E A → (A → M S E B) → M S E B
  ◌>>=◌ m f s = let (r, s') = m s in continue r f s'

  abbrev pub ◌>>◌ : M S E A → M S E B → M S E B
  ◌>>◌ m k s = let (r, s') = m s in continue r (λ _. k) s'

module _ {ℓ κ μ} {S : Type ℓ} {E : Type κ} {A : Type μ} where
  abbrev pub return : A → M S E A
  return a s = (ok a, s)

  abbrev pub fail : E → M S E A
  fail e s = (err e, s)

  abbrev pub lift : Result E A → M S E A
  lift r s = (r, s)

  -- `m.map_err(f)` of a call that changes the state
  abbrev pub map_err_m {ν} : {F : Type ν} → (E → F) → M S E A → M S F A
  map_err_m f m s = let (r, s') = m s in (map_err f r, s')

module _ {ℓ κ} {S : Type ℓ} {E : Type κ} where
  abbrev pub get : M S E S
  get s = (ok s, s)

  abbrev pub modify : (S → S) → M S E (Unit {0})
  modify f s = (ok tt, f s)

-- What follows a step ran only if the step succeeded.
module _ {ℓ κ μ ν} {S : Type ℓ} {E : Type κ} {A : Type μ} {B : Type ν} where
  pub continue-ok :
      (r : Result E A) (f : A → M S E B) (s : S) (b : B)
      → (continue r f s).0 ≡ ok b
      → (a : A) × (r ≡ ok a) × (continue r f s ≡ f a s)
  continue-ok (ok a) f s b h = (a, refl, refl)
  continue-ok (err e) f s b h = absurd cc
  continue-ok panicked f s b h = absurd cc
