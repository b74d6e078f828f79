-- ===== src/Prelude/Members.antt =====
-- The members of a list of numbers.
use mathlib.Core.List.{Perm, perm_middle}
use mathlib.Core.List.Perm
use mathlib.Core.Path.{◌≡◌, sym, ap, subst}
use mathlib.Core.Logic.{inl, inr}
use mathlib.Core.Bool.{Bool, true, false}
use mathlib.Core.List.{List, [], ◌∷◌, ◌++◌}
use native.Mathlib.Omega.{arith}
use Prim.Native.Nat.{ℕ}
use saturn_crates.Prelude.Tests.{◌==◌, Bool-cases}
use saturn_crates.Prelude.Lists.{any, length, All, length-append}

abbrev pub member : List ℕ → ℕ → Bool
member xs i = any (λ j. j == i) xs

abbrev pub NoRepeats : List ℕ → Type 0
NoRepeats [] = Unit
NoRepeats (i ∷ is) = (any (λ j. i == j) is ≡ false) × NoRepeats is

member_split :
    (xs : List ℕ) (i : ℕ)
    → member xs i ≡ true
    → (before : List ℕ) × (after : List ℕ) × (xs ≡ before ++ (i ∷ after))
member_split [] i h = absurd (ground arith)
member_split (x ∷ xs) i h = elim (Bool-cases (x == i)) [
  | inl same ↦ ([], xs, ap (λ k. k ∷ xs) (ground (arith, same)))
  | inr differs ↦
      let (before, after, e) = member_split xs i (ground (arith, h, differs)) in
      (x ∷ before, after, ap (λ k. x ∷ k) e)
]

-- A member other than one that is taken out stays a member.
member-rest :
    (before after : List ℕ) (i j : ℕ)
    → (i == j) ≡ false
    → member (before ++ (i ∷ after)) j ≡ true
    → member (before ++ after) j ≡ true
member-rest [] after i j d h = ground (arith, d, h)
member-rest (x ∷ before) after i j d h = elim (Bool-cases (x == j)) [
  | inl same ↦ ground (arith, same)
  | inr differs ↦
      ground (arith, differs, member-rest before after i j d (ground (arith, h, differs)))
]

others :
    (before after is : List ℕ) (i : ℕ)
    → any (λ j. i == j) is ≡ false
    → All (λ j. member (before ++ (i ∷ after)) j ≡ true) is
    → All (λ j. member (before ++ after) j ≡ true) is
others before after [] i d h = tt
others before after (k ∷ is) i d h = (
  member-rest before after i k (ground (arith, d)) h.0,
  others before after is i (ground (arith, d)) h.1,
)

-- Different members, as many as there are, are all of them.
pub all_members-Perm :
    (is xs : List ℕ)
    → NoRepeats is
    → All (λ i. member xs i ≡ true) is
    → length is ≡ length xs
    → Perm is xs
all_members-Perm [] [] d h e = Perm.refl []
all_members-Perm [] (x ∷ xs) d h e = absurd (omega (arith, e))
all_members-Perm (i ∷ is) xs d h e =
    let (before, after, same) = member_split xs i h.0 in
    let fewer : length is ≡ length (before ++ after) =
      omega
        (arith, e, ap length same, length-append before (i ∷ after), length-append before after) in
    let rest =
      all_members-Perm is (before ++ after) d.1
        (others before after is i d.0 (subst (λ k. All (λ j. member k j ≡ true) is) same h.1))
        fewer in
    subst (Perm (i ∷ is)) (sym same)
      (Perm.trans (Perm.cons i rest) (Perm.symm (perm_middle before after)))
