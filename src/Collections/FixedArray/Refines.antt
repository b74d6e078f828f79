-- ===== src/Collections/FixedArray/Refines.antt =====
-- FixedArray: every method is the operation on the list that the array stands for.
use saturn_crates.Prelude.{
  ℕ, zero, suc, ◌+◌, ◌-◌, ◌%◌, ◌≤◌, ◌<◌, ◌≡◌, refl, sym, ap, ap₂, ◌∙◌, ◌⊎◌, List, [], ◌∷◌, ◌++◌,
  Bool, true, false, none, some, ok, ltb, leb, ◌==◌, length, get_elem?, set, keep, replicate, arith,
  append_assoc, length-append, Bool-cases, inl, inr,
}
use mathlib.Core.Path.{subst}
use native.Mathlib.Decide.{dec_lt}
use saturn_crates.Collections.FixedArray.{
  FixedArray, u16_mod, new, add, shift, remove_at, fill, clear, retain_from, retain,
}
use saturn_crates.Collections.FixedArray.Stands.{
  Stands, get_elem?-append, set-append, replicate-append, snoc_assoc, length-snoc,
}
use saturn_crates.Collections.FixedArray.Loops.{fill_middle, shift_over, retain_from_lem}

module _ {ℓ} {A : Type ℓ} where
  abbrev pub erase_at : List A → ℕ → List A
  erase_at [] i = []
  erase_at (x ∷ xs) zero = xs
  erase_at (x ∷ xs) (suc i) = x ∷ erase_at xs i

  -- A list is what stands before an index, the element there and what stands behind it.
  split_at :
      (xs : List A) (i : ℕ)
      → i < length xs
      → (ys : List A) × (y : A) × (zs : List A) × (xs ≡ ys ++ (y ∷ zs))
        × (i ≡ length ys)
        × (erase_at xs i ≡ ys ++ zs)
  split_at [] i h = absurd (omega arith)
  split_at (x ∷ xs) zero h = ([], x, xs, refl, refl, refl)
  split_at (x ∷ xs) (suc i) h =
      let (ys, y, zs, e, k, r) = split_at xs i (omega arith) in
      (x ∷ ys, y, zs, ap (λ t. x ∷ t) e, ap suc k, ap (λ t. x ∷ t) r)

  module _ (size : ℕ) (d : A) where
    -- an array whose slots behind `xs` are `n` defaults
    pub slots_of :
        (a : FixedArray A) (xs : List A) (n : ℕ)
        → a.items ≡ xs ++ replicate n d
        → a.count ≡ length xs
        → n + length xs ≡ size
        → size < u16_mod
        → Stands size d a xs
    slots_of a xs n e c l b =
        let k : n ≡ size - length xs = omega arith in
        record {
          slots = e ∙ ap (λ k. xs ++ replicate k d) k;
          counted = c;
          bounded = omega arith;
          small = b;
        }

    pub new-Stands : size < u16_mod → (a : FixedArray A) × (new size d ≡ ok a) × Stands size d a []
    unfolding new
    new-Stands h = (
      record { items = replicate size d; count = 0 },
      ground arith,
      slots_of (record { items = replicate size d; count = 0 }) [] size refl refl (omega arith) h,
    )

    pub add-Stands :
        (a : FixedArray A) (xs : List A) (x : A)
        → Stands size d a xs
        → ((length xs < size)
            × ((add size a x).0 ≡ some (length xs))
            × Stands size d (add size a x).1 (xs ++ (x ∷ [])))
          ⊎ ((length xs ≡ size) × (add size a x ≡ (none, a)))
    unfolding add
    add-Stands a xs x s = elim (Bool-cases (a.count == size)) [
      | inl full ↦ inr (ground (arith, s.counted), rw full refl)
      | inr room ↦
          let less : length xs < size = ground (arith, s.counted, s.bounded) in
          let grown : size - length xs ≡ suc (size - length xs - 1) = omega (arith, less) in
          let n = size - length xs - 1 in
          inl (
            less,
            rw room (ap some s.counted),
            rw room (
                slots_of (record { items = set a.items a.count x; count = (a.count + 1) % u16_mod })
                  (xs ++ (x ∷ [])) n
                  (ap (λ k. set k a.count x) (s.slots ∙ ap (λ k. xs ++ replicate k d) grown)
                    ∙ set-append xs d x (replicate n d) a.count s.counted
                    ∙ sym (snoc_assoc xs x (replicate n d)))
                  (omega (arith, s.counted, less, s.small, length-snoc xs x))
                  (omega (arith, less, length-snoc xs x)) s.small),
          )
    ]

    removed_items :
        (a : FixedArray A) (ys : List A) (y : A) (zs : List A) (i : ℕ)
        → i ≡ length ys
        → Stands size d a (ys ++ (y ∷ zs))
        → set (shift (a.count - 1 - i) i a.items) (a.count - 1) d
          ≡ (ys ++ zs) ++ replicate (size - length (ys ++ (y ∷ zs)) + 1) d
    removed_items a ys y zs i h s =
        let n = size - length (ys ++ (y ∷ zs)) in
        let rounds : a.count - 1 - i ≡ length zs =
          omega (arith, s.counted, h, length-append ys (y ∷ zs)) in
        let last : a.count - 1 ≡ length (ys ++ zs) =
          omega (arith, s.counted, length-append ys (y ∷ zs), length-append ys zs) in
        let more : suc n ≡ n + 1 = omega arith in
        let (l, moved) = shift_over ys y zs (replicate n d) i h in
        ap₂ (λ r k. set (shift r i k) (a.count - 1) d) rounds
          (s.slots ∙ append_assoc ys (y ∷ zs) (replicate n d))
        ∙ ap (λ k. set k (a.count - 1) d) (moved ∙ sym (append_assoc ys zs (l ∷ replicate n d)))
        ∙ set-append (ys ++ zs) l d (replicate n d) (a.count - 1) last
        ∙ ap (λ k. (ys ++ zs) ++ replicate k d) more

    removed :
        (a : FixedArray A) (ys : List A) (y : A) (zs : List A) (i : ℕ)
        → i ≡ length ys
        → Stands size d a (ys ++ (y ∷ zs))
        → ((remove_at size d a i).0 ≡ some y) × Stands size d (remove_at size d a i).1 (ys ++ zs)
    unfolding remove_at
    removed a ys y zs i h s =
        let n = size - length (ys ++ (y ∷ zs)) in
        let total = length-append ys (y ∷ zs) in
        let inside : leb a.count i ≡ false = ground (arith, s.counted, h, total) in
        let filled : ltb 0 size ≡ true = ground (arith, s.bounded, total) in
        rw (inside, filled)
          (
            ap (λ k. get_elem? k i) (s.slots ∙ append_assoc ys (y ∷ zs) (replicate n d))
                ∙ get_elem?-append ys y (zs ++ replicate n d) i h,
            slots_of
                (record {
                  items = set (shift (a.count - 1 - i) i a.items) (a.count - 1) d;
                  count = a.count - 1;
                })
                (ys ++ zs) (n + 1) (removed_items a ys y zs i h s)
                (omega (arith, s.counted, total, length-append ys zs))
                (omega (arith, s.bounded, total, length-append ys zs)) s.small,
          )

    pub remove_at-Stands :
        (a : FixedArray A) (xs : List A) (i : ℕ)
        → Stands size d a xs
        → ((i < length xs)
            × ((remove_at size d a i).0 ≡ get_elem? xs i)
            × Stands size d (remove_at size d a i).1 (erase_at xs i))
          ⊎ ((length xs ≤ i) × (remove_at size d a i ≡ (none, a)))
    unfolding remove_at
    remove_at-Stands a xs i s = elim (dec_lt i (length xs)) [
      | yes p ↦
          let (ys, y, zs, e, k, rest) = split_at xs i p in
          let (r, t) = removed a ys y zs i k (subst (Stands size d a) e s) in
          inl (
            p,
            r ∙ sym (ap (λ l. get_elem? l i) e ∙ get_elem?-append ys y zs i k),
            subst (Stands size d (remove_at size d a i).1) (sym rest) t,
          )
      | no p ↦
          let outside : leb a.count i ≡ true = ground (arith, s.counted) in
          inr (omega arith, rw outside refl)
    ]

    pub clear-Stands :
        (a : FixedArray A) (xs : List A) → Stands size d a xs → Stands size d (clear d a) []
    unfolding clear
    clear-Stands a xs s =
        slots_of (clear d a) [] (length xs + (size - length xs))
          (ap₂ (λ n k. fill d n 0 k) s.counted s.slots
            ∙ fill_middle d [] xs (replicate (size - length xs) d) 0 refl
            ∙ replicate-append (length xs) (size - length xs) d)
          refl (omega (arith, s.bounded)) s.small

    -- `retain` gives the array of the elements that pass, in their order, and resets the slots behind them.
    pub retain-Stands :
        (f : A → Bool) (a : FixedArray A) (xs : List A)
        → Stands size d a xs
        → Stands size d (retain d f a) (keep f xs)
    unfolding retain
    retain-Stands f a xs s =
        let (js, e, n) =
          retain_from_lem f xs [] [] (replicate (size - length xs) d) 0 0 refl refl in
        let start : retain_from f a.count 0 0 a.items
            ≡ retain_from f (length xs) 0 0 (xs ++ replicate (size - length xs) d) =
          ap₂ (λ n k. retain_from f n 0 0 k) s.counted s.slots in
        let junk : a.count - (0 + length (keep f xs)) ≡ length js = omega (arith, s.counted, n) in
        subst
          (λ r.
            Stands size d (record { items = fill d (a.count - r.1) r.1 r.0; count = r.1 % u16_mod })
              (keep f xs))
          (sym (start ∙ e))
          (slots_of _ (keep f xs) (length js + (size - length xs))
            (ap
                (λ j.
                  fill d j (0 + length (keep f xs))
                    (keep f xs ++ (js ++ replicate (size - length xs) d)))
                junk
              ∙ fill_middle d (keep f xs) js (replicate (size - length xs) d)
                  (0 + length (keep f xs)) (omega arith)
              ∙ ap (λ k. keep f xs ++ k) (replicate-append (length js) (size - length xs) d))
            (omega (arith, n, s.bounded, s.small)) (omega (arith, n, s.bounded)) s.small)
