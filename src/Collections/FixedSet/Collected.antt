-- ===== src/Collections/FixedSet/Collected.antt =====
-- FixedSet: what `try_from_iter` collects.
use mathlib.Core.Path.{subst}
use saturn_crates.Prelude.{
  ℕ, ◌≤◌, ◌<◌, ◌≡◌, ◌⊎◌, refl, sym, ap, ◌∙◌, List, [], ◌∷◌, ◌++◌, Bool, Result, ok, err, panicked,
  leb, leb→le, if◌then◌else◌, length, any, arith, append-nil, append_assoc, length-append,
  Bool-cases, inl, inr,
}
use saturn_crates.Collections.FixedSet.{
  FixedSetError, full, duplicate, FixedSet, new, as_slice, insert, insert_all, try_from_iter,
}
use saturn_crates.Collections.FixedSet.Slices.{Distinct, Distinct-append}
use saturn_crates.Collections.FixedSet.Laws.{IsValid, new-IsValid, length-as_slice, as_slice-insert}

module _ {ℓ} {A : Type ℓ} (eqv : A → A → Bool) where
  -- the elements to which none before them, and none that was seen, is equivalent
  abbrev pub firsts : List A → List A → List A
  firsts seen [] = []
  firsts seen (x ∷ xs) =
      if any (λ i. eqv i x) seen then firsts seen xs else x ∷ firsts (seen ++ (x ∷ [])) xs

  firsts-Distinct : (seen xs : List A) → Distinct eqv seen → Distinct eqv (seen ++ firsts seen xs)
  firsts-Distinct seen [] d = subst (Distinct eqv) (sym (append-nil seen)) d
  firsts-Distinct seen (x ∷ xs) d = elim (Bool-cases (any (λ i. eqv i x) seen)) [
    | inl old ↦ rw (old, firsts) (firsts-Distinct seen xs d)
    | inr fresh ↦
        rw (fresh, firsts)
          (subst (Distinct eqv) (append_assoc seen (x ∷ []) (firsts (seen ++ (x ∷ [])) xs))
            (firsts-Distinct (seen ++ (x ∷ [])) xs (Distinct-append eqv seen x d fresh)))
  ]

  module _ (size : ℕ) where
    -- The set holds all of `xs`, which fit; or they do not fit, and the call fails.
    abbrev pub Collects : List A → Result FixedSetError (FixedSet A) → Type ℓ
    Collects xs r =
        ((length xs ≤ size) × (s : FixedSet A) × (r ≡ ok s) × IsValid size s × (as_slice s ≡ xs))
        ⊎ ((size < length xs) × (r ≡ err full))

    -- what the loop does after an insertion
    next_item :
        (s : FixedSet A) (x : A) (xs : List A) (r : Result FixedSetError (Unit {0}))
        → (insert eqv size s x).0 ≡ r
        → insert_all eqv size s (x ∷ xs) ≡ (elim r as (λ _. Result FixedSetError (FixedSet A)) [
          | ok _ ↦ insert_all eqv size (insert eqv size s x).1 xs
          | err duplicate ↦ insert_all eqv size (insert eqv size s x).1 xs
          | err full ↦ err full
          | panicked ↦ panicked
        ])
    unfolding insert_all
    next_item s x xs r e = rw (e, insert_all) refl

    insert_all-Collects :
        (s : FixedSet A) (xs : List A)
        → IsValid size s
        → Collects (as_slice s ++ firsts (as_slice s) xs) (insert_all eqv size s xs)
    insert_all-Collects s [] v =
        subst (λ k. Collects k (insert_all eqv size s [])) (sym (append-nil (as_slice s)))
          (inl (
            omega (arith, length-as_slice size s v, v.bounded),
            s,
            unfold insert_all in refl,
            v,
            refl,
          ))
    insert_all-Collects s (x ∷ xs) v =
        let slice = as_slice s in
        let s' = (insert eqv size s x).1 in
        let (v', e) = as_slice-insert eqv size s x v in
        let rest = insert_all-Collects s' xs v' in
        elim (Bool-cases (any (λ i. eqv i x) slice)) [
          | inl old ↦
              let step = next_item s x xs (err duplicate) (ap (λ t. t.0) e ∙ rw old refl) in
              let kept : as_slice s' ≡ slice = ap (λ t. t.1) e ∙ rw old refl in
              let same : firsts slice (x ∷ xs) ≡ firsts slice xs = rw (old, firsts) refl in
              rw (same, step)
                (subst (λ k. Collects (k ++ firsts k xs) (insert_all eqv size s' xs)) kept rest)
          | inr fresh ↦ elim (Bool-cases (leb size (length slice))) [
            | inl no_room ↦
                let step =
                  next_item s x xs (err full) (ap (λ t. t.0) e ∙ rw fresh (rw no_room refl)) in
                let more : firsts slice (x ∷ xs) ≡ x ∷ firsts (slice ++ (x ∷ [])) xs =
                  rw (fresh, firsts) refl in
                rw (more, step)
                  (inr (
                    omega (
                      arith,
                      length-append slice (x ∷ firsts (slice ++ (x ∷ [])) xs),
                      leb→le size (length slice) no_room,
                    ),
                    refl,
                  ))
            | inr room ↦
                let step = next_item s x xs (ok tt) (ap (λ t. t.0) e ∙ rw fresh (rw room refl)) in
                let grown : as_slice s' ≡ slice ++ (x ∷ []) =
                  ap (λ t. t.1) e ∙ rw fresh (rw room refl) in
                let more : firsts slice (x ∷ xs) ≡ x ∷ firsts (slice ++ (x ∷ [])) xs =
                  rw (fresh, firsts) refl in
                rw (more, step)
                  (subst (λ k. Collects k (insert_all eqv size s' xs))
                    (ap (λ k. k ++ firsts k xs) grown
                      ∙ append_assoc slice (x ∷ []) (firsts (slice ++ (x ∷ [])) xs))
                    rest)
          ]
        ]

    -- `try_from_iter` gives a set whose array has the capacity as its length, and that holds each item of
    -- the iterator to which no item before it is equivalent, in their order; no two of them are equivalent.
    -- If these are more than the capacity the call fails with Full.
    pub try_from_iter-Collects :
        (d : A) (xs : List A)
        → Collects (firsts [] xs) (try_from_iter eqv size d xs) × Distinct eqv (firsts [] xs)
    unfolding try_from_iter new
    try_from_iter-Collects d xs =
        (insert_all-Collects (new size d) xs (new-IsValid size d), firsts-Distinct [] xs tt)
