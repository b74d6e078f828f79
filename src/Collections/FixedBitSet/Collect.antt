-- ===== src/Collections/FixedBitSet/Collect.antt =====
-- FixedBitSet: the indices that `iter` and `collect_sorted` give.
use saturn_crates.Prelude.{
  ℕ, zero, suc, ◌+◌, ◌≡◌, ◌≤◌, ◌<◌, refl, sym, ap, ap₂, ◌∙◌, List, [], ◌∷◌, ◌++◌, Bool, true, false,
  ◌&&◌, ltb, ◌==◌, length, take, drop, any, arith, ◌⊎◌, Bool-cases, inl, inr,
}
use mathlib.Core.Path.{subst}
use saturn_crates.Collections.FixedArray.Stands.{set-append, snoc_assoc, length-snoc, take-append}
use saturn_crates.Collections.FixedBitSet.{
  FixedBitSet, bit, contains, indices_from, collect_from, collect_sorted,
}
use saturn_crates.Collections.FixedBitSet.Laws.{IsValid, ones}

-- Each number is greater than those before it, and none is below `lo`.
abbrev pub Ascending : ℕ → List ℕ → Type 0
Ascending lo [] = Unit
Ascending lo (x ∷ xs) = (lo ≤ x) × Ascending (x + 1) xs

Ascending-le : (lo hi : ℕ) (xs : List ℕ) → lo ≤ hi → Ascending hi xs → Ascending lo xs
Ascending-le lo hi [] h a = tt
Ascending-le lo hi (x ∷ xs) h a = (omega (arith, h, a.0), a.1)

indices_from-Ascending : (i : ℕ) (bs : List Bool) → Ascending i (indices_from i bs)
indices_from-Ascending i [] = tt
indices_from-Ascending i (true ∷ bs) = (omega arith, indices_from-Ascending (i + 1) bs)
indices_from-Ascending i (false ∷ bs) =
    Ascending-le i (i + 1) (indices_from (i + 1) bs) (omega arith)
      (indices_from-Ascending (i + 1) bs)

length-indices_from : (i : ℕ) (bs : List Bool) → length (indices_from i bs) ≡ ones bs
length-indices_from i [] = refl
length-indices_from i (true ∷ bs) = ap suc (length-indices_from (i + 1) bs)
length-indices_from i (false ∷ bs) = length-indices_from (i + 1) bs

any-below : (lo j : ℕ) (xs : List ℕ) → j < lo → Ascending lo xs → any (λ k. k == j) xs ≡ false
any-below lo j [] h a = refl
any-below lo j (x ∷ xs) h a =
    let differ : (x == j) ≡ false = ground (arith, h, a.0) in
    rw (differ, any) (any-below (x + 1) j xs (omega (arith, h, a.0)) a.1)

-- An index is among those from `i` on exactly if its bit is set.
any-next :
    (i : ℕ) (bs : List Bool) (j : ℕ)
    → any (λ k. k == (i + 1 + j)) (indices_from (i + 1) bs) ≡ bit bs j
    → any (λ k. k == (i + suc j)) (indices_from (i + 1) bs) ≡ bit bs j
any-next i bs j h =
    let e : i + suc j ≡ i + 1 + j = omega arith in
    ap (λ m. any (λ k. k == m) (indices_from (i + 1) bs)) e ∙ h

any-indices_from :
    (i : ℕ) (bs : List Bool) (j : ℕ) → any (λ k. k == (i + j)) (indices_from i bs) ≡ bit bs j
any-indices_from i [] j = refl
any-indices_from i (true ∷ bs) zero = ground arith
any-indices_from i (false ∷ bs) zero =
    any-below (i + 1) (i + 0) (indices_from (i + 1) bs) (omega arith)
      (indices_from-Ascending (i + 1) bs)
any-indices_from i (true ∷ bs) (suc j) =
    let differ : (i == (i + suc j)) ≡ false = ground arith in
    rw (differ, any) (any-next i bs j (any-indices_from (i + 1) bs j))
any-indices_from i (false ∷ bs) (suc j) = any-next i bs j (any-indices_from (i + 1) bs j)

ones-le : (bs : List Bool) → ones bs ≤ length bs
ones-le [] = omega arith
ones-le (true ∷ bs) = omega (arith, ones-le bs)
ones-le (false ∷ bs) = omega (arith, ones-le bs)

from_start : (bs : List Bool) (j : ℕ) → any (λ k. k == j) (indices_from 0 bs) ≡ bit bs j
from_start bs j =
    let e : j ≡ 0 + j = omega arith in
    ap (λ m. any (λ k. k == m) (indices_from 0 bs)) e ∙ any-indices_from 0 bs j

bit_outside : (bs : List Bool) (j : ℕ) → length bs ≤ j → bit bs j ≡ false
bit_outside [] j h = refl
bit_outside (b ∷ bs) zero h = absurd (omega arith)
bit_outside (b ∷ bs) (suc j) h = bit_outside bs j (omega arith)

module _ (size : ℕ) where
  collect_from_lem :
      (bs : List Bool) (done rest : List ℕ) (i n : ℕ)
      → n ≡ length done
      → length done + ones bs ≤ size
      → ones bs ≤ length rest
      → collect_from size i bs (done ++ rest) n ≡ (
        n + length (indices_from i bs),
        done ++ (indices_from i bs ++ drop (length (indices_from i bs)) rest),
      )
  unfolding collect_from
  collect_from_lem [] done rest i n e h k = ap₂ (λ a b. (a, b)) (omega arith) refl
  collect_from_lem (false ∷ bs) done rest i n e h k = collect_from_lem bs done rest (i + 1) n e h k
  collect_from_lem (true ∷ bs) done [] i n e h k = absurd (omega (arith, k))
  collect_from_lem (true ∷ bs) done (r ∷ rest) i n e h k =
      let room : ltb n size ≡ true = ground arith in
      rw (room, collect_from)
        (ap (λ b. collect_from size (i + 1) bs b (n + 1))
            (set-append done r i rest n e ∙ sym (snoc_assoc done i rest))
          ∙ collect_from_lem bs (done ++ (i ∷ [])) rest (i + 1) (n + 1)
              (omega (arith, e, length-snoc done i)) (omega (arith, h, length-snoc done i))
              (omega (arith, k))
          ∙ ap₂ (λ a b. (a, b)) (omega arith)
              (snoc_assoc done i
                (indices_from (i + 1) bs ++ drop (length (indices_from (i + 1) bs)) rest)))

  -- The call returns the number of bits that are set and writes their indices to the front of the buffer,
  -- in ascending order: exactly the indices that the set contains. (The buffer has the capacity as its
  -- length.)
  pub collect_sorted_lem :
      (s : FixedBitSet) (buffer : List ℕ) (j : ℕ)
      → IsValid size s
      → length buffer ≡ size
      → ((collect_sorted size s buffer).0 ≡ s.count)
        × Ascending 0 (take s.count (collect_sorted size s buffer).1)
        × (any (λ k. k == j) (take s.count (collect_sorted size s buffer).1) ≡ contains size s j)
  unfolding collect_sorted contains
  collect_sorted_lem s buffer j v long =
      let all =
        collect_from_lem s.included [] buffer 0 0 refl (omega (arith, ones-le s.included, v.sized))
          (omega (arith, ones-le s.included, v.sized, long)) in
      let many : s.count ≡ length (indices_from 0 s.included) =
        v.counted ∙ sym (length-indices_from 0 s.included) in
      let front : take s.count (collect_sorted size s buffer).1 ≡ indices_from 0 s.included =
        ap₂ (λ n b. take n b.1) many all
        ∙ take-append (indices_from 0 s.included)
            (drop (length (indices_from 0 s.included)) buffer) in
      (
        ap (λ k. k.0) all ∙ omega (arith, many),
        subst (Ascending 0) (sym front) (indices_from-Ascending 0 s.included),
        ap (any (λ k. k == j)) front ∙ found (Bool-cases (ltb j size)),
      )
    where
      found :
          ((ltb j size ≡ true) ⊎ (ltb j size ≡ false))
          → any (λ k. k == j) (indices_from 0 s.included) ≡ (ltb j size && bit s.included j)
      found (inl h) = rw h (from_start s.included j)
      found (inr h) =
          rw h (from_start s.included j ∙ bit_outside s.included j (ground (arith, v.sized)))
