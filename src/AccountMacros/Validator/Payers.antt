-- ===== src/AccountMacros/Validator/Payers.antt =====
-- What the payer rule makes sure of.
use saturn_crates.Prelude.{
  ℕ, zero, suc, ◌+◌, ◌≡◌, ◌<◌, ◌⊎◌, refl, List, [], ◌∷◌, Bool, true, false, not, ◌||◌, some, ok,
  leb, ◌==◌, if◌then◌else◌, get_elem?, arith, Option-cases, inl, inr,
}
use mathlib.Core.Path.{subst}
use saturn_crates.Prelude.Exec.{try-ok, unless-ok}
use saturn_crates.AccountMacros.{FieldCfg, Payer, expr_path, other_expr}
use saturn_crates.AccountMacros.Validator.{
  Checked, is_set, each, by_ident, check_payer, check_field_payer, payer_rule, payer_not_signer,
  payer_not_writable, payer_too_late,
}

-- The payer of the field at `i` is a field that stands before it, and is a signer and writable.
abbrev pub Paid : List FieldCfg → ℕ → Payer → Type 0
Paid fields i other_expr = ⊥
Paid fields i (expr_path []) = ⊥
Paid fields i (expr_path (name ∷ rest)) =
    (j : ℕ) × (g : FieldCfg) × (get_elem? fields j ≡ some g)
    × (j < i)
    × (g.ident ≡ name)
    × (is_set g.is_signer ≡ true)
    × (is_set g.is_writable ≡ true)

pub each-at :
    (rule : FieldCfg → Checked) (fs : List FieldCfg) (k : ℕ) (f : FieldCfg)
    → each rule fs ≡ ok tt
    → get_elem? fs k ≡ some f
    → rule f ≡ ok tt
each-at rule [] k f h at = absurd (cc)
each-at rule (g ∷ fs) zero f h at =
    let (done, (here, later)) = try-ok (rule g) _ tt h in
    let same : g ≡ f = cc at in subst (λ x. rule x ≡ ok tt) same here
each-at rule (g ∷ fs) (suc k) f h at =
    let (done, (here, later)) = try-ok (rule g) _ tt h in each-at rule fs k f later at

taken :
    {A : Type 0} (t : Bool) (a b c : A)
    → (if t then a else b) ≡ c
    → ((t ≡ true) × (a ≡ c)) ⊎ ((t ≡ false) × (b ≡ c))
taken true a b c h = inl (refl, h)
taken false a b c h = inr (refl, h)

by_ident-at :
    (name idx : ℕ) (fs : List FieldCfg) (found : ℕ × FieldCfg)
    → by_ident name idx fs ≡ some found
    → (k : ℕ) × (found.0 ≡ idx + k) × (get_elem? fs k ≡ some found.1) × (found.1.ident ≡ name)
unfolding by_ident
by_ident-at name idx [] found h = absurd (cc)
by_ident-at name idx (f ∷ fs) found h =
    elim (taken (f.ident == name) (some (idx, f)) (by_ident name (idx + 1) fs) (some found) h) [
      | inl (same, here) ↦
          let e : ◌≡◌ {A = ℕ × FieldCfg} (idx, f) found = cc here in
          subst
            (λ k.
              (n : ℕ) × (k.0 ≡ idx + n) × (get_elem? (f ∷ fs) n ≡ some k.1) × (k.1.ident ≡ name))
            e (0, omega arith, refl, ground (arith, same))
      | inr (differs, later) ↦
          let (k, e, there, same) = by_ident-at name (idx + 1) fs found later in
          (suc k, omega (arith, e), there, same)
    ]

check_payer-Paid :
    (fields : List FieldCfg) (i : ℕ) (p : Payer) → check_payer fields i p ≡ ok tt → Paid fields i p
unfolding check_payer
check_payer-Paid fields i other_expr h = absurd (cc)
check_payer-Paid fields i (expr_path []) h = absurd (cc)
check_payer-Paid fields i (expr_path (name ∷ rest)) h =
    elim (Option-cases (by_ident name 0 fields)) [
      | inl unknown ↦ absurd (cc (rw (unknown, check_payer) at h))
      | inr (found, at) ↦
          let (signs, h1) =
            unless-ok (not (is_set found.1.is_signer)) payer_not_signer _ tt
              (rw (at, check_payer) at h) in
          let (writes, h2) =
            unless-ok (not (is_set found.1.is_writable)) payer_not_writable _ tt h1 in
          let (before, _) = unless-ok (leb i found.0) payer_too_late (ok tt) tt h2 in
          let (k, e, there, same) = by_ident-at name 0 fields found at in
          (
            k,
            found.1,
            there,
            ground (arith, e, before),
            same,
            ground (arith, signs),
            ground (arith, writes),
          )
    ]

pub payer_rule-Paid :
    (all : List FieldCfg) (idx : ℕ) (fs : List FieldCfg) (k : ℕ) (f : FieldCfg) (p : Payer)
    → payer_rule all idx fs ≡ ok tt
    → get_elem? fs k ≡ some f
    → (f.is_init || (f.is_init_if_needed || f.is_realloc)) ≡ true
    → f.payer ≡ some p
    → Paid all (idx + k) p
unfolding payer_rule
payer_rule-Paid all idx [] k f p h at needs pays = absurd (cc)
payer_rule-Paid all idx (g ∷ fs) zero f p h at needs pays =
    let (done, (here, later)) = try-ok (check_field_payer all idx g) _ tt h in
    let same : g ≡ f = cc at in
    subst (λ n. Paid all n p) (omega arith)
      (paid (subst (λ x. check_field_payer all idx x ≡ ok tt) same here))
  where
    paid : check_field_payer all idx f ≡ ok tt → Paid all idx p
    paid h = check_payer-Paid all idx p (rw (needs, pays) at h)
payer_rule-Paid all idx (g ∷ fs) (suc k) f p h at needs pays =
    let (done, (here, later)) = try-ok (check_field_payer all idx g) _ tt h in
    let e : idx + 1 + k ≡ idx + suc k = omega arith in
    subst (λ n. Paid all n p) e (payer_rule-Paid all (idx + 1) fs k f p later at needs pays)
