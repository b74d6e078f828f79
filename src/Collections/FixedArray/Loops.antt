-- ===== src/Collections/FixedArray/Loops.antt =====
-- FixedArray: what the loops do to the items.
use saturn_crates.Prelude.{
  ℕ, suc, ◌+◌, ◌≡◌, refl, sym, ap, ap₂, ◌∙◌, List, [], ◌∷◌, ◌++◌, Bool, true, false, some, ◌==◌,
  if◌then◌else◌, length, get_elem?, set, keep, replicate, arith, append_assoc, length-append,
  Bool-cases, inl, inr,
}
use mathlib.Core.Path.{subst}
use saturn_crates.Collections.FixedArray.{shift, fill, retain_from}
use saturn_crates.Collections.FixedArray.Stands.{
  get_elem?-append, set-append, snoc_assoc, length-snoc,
}

module _ {ℓ} {A : Type ℓ} where
  -- `fill` overwrites the middle part.
  pub fill_middle :
      (d : A) (xs ys zs : List A) (i : ℕ)
      → i ≡ length xs
      → fill d (length ys) i (xs ++ (ys ++ zs)) ≡ xs ++ (replicate (length ys) d ++ zs)
  unfolding fill
  fill_middle d xs [] zs i h = refl
  fill_middle d xs (y ∷ ys) zs i h =
      ap (fill d (length ys) (i + 1))
        (set-append xs y d (ys ++ zs) i h ∙ sym (snoc_assoc xs d (ys ++ zs)))
      ∙ fill_middle d (xs ++ (d ∷ [])) ys zs (i + 1) (omega (arith, h, length-snoc xs d))
      ∙ snoc_assoc xs d (replicate (length ys) d ++ zs)

  -- `shift` moves the elements behind `y` to the front by one, and leaves some element where the last was.
  pub shift_over :
      (xs : List A) (y : A) (ys zs : List A) (i : ℕ)
      → i ≡ length xs
      → (l : A) × (shift (length ys) i (xs ++ (y ∷ (ys ++ zs))) ≡ xs ++ (ys ++ (l ∷ zs)))
  unfolding shift
  shift_over xs y [] zs i h = (y, refl)
  shift_over xs y (x ∷ ys) zs i h =
      let next : get_elem? (xs ++ (y ∷ (x ∷ (ys ++ zs)))) (i + 1) ≡ some x =
        ap (λ k. get_elem? k (i + 1)) (sym (snoc_assoc xs y (x ∷ (ys ++ zs))))
        ∙ get_elem?-append (xs ++ (y ∷ [])) x (ys ++ zs) (i + 1)
            (omega (arith, h, length-snoc xs y)) in
      let (l, moved) =
        shift_over (xs ++ (x ∷ [])) x ys zs (i + 1) (omega (arith, h, length-snoc xs x)) in
      (
        l,
        rw (next, shift)
            (ap (shift (length ys) (i + 1))
                (set-append xs y x (x ∷ (ys ++ zs)) i h ∙ sym (snoc_assoc xs x (x ∷ (ys ++ zs))))
              ∙ moved
              ∙ snoc_assoc xs x (ys ++ (l ∷ zs))),
      )

  -- The result of the loop of `retain`, which has kept `ks` and has `room` other elements before `zs`.
  abbrev Retained : List A → List A → List A → ℕ → List A × ℕ → Type ℓ
  Retained ks more zs room result =
      (js : List A) × (result ≡ (ks ++ (more ++ (js ++ zs)), length ks + length more))
      × (length js + length more ≡ room)

  one_more :
      (ks : List A) (x : A) (more zs : List A) (room : ℕ) (result : List A × ℕ)
      → Retained (ks ++ (x ∷ [])) more zs room result
      → Retained ks (x ∷ more) zs (room + 1) result
  one_more ks x more zs room result (js, e, n) = (
    js,
    e
        ∙ ap₂ (λ a b. (a, b)) (snoc_assoc ks x (more ++ (js ++ zs)))
            (omega (arith, length-snoc ks x)),
    omega (arith, n),
  )

  read_at :
      (ks junk : List A) (x : A) (rest : List A) (r : ℕ)
      → r ≡ length ks + length junk
      → get_elem? (ks ++ (junk ++ (x ∷ rest))) r ≡ some x
  read_at ks junk x rest r h =
      ap (λ k. get_elem? k r) (sym (append_assoc ks junk (x ∷ rest)))
      ∙ get_elem?-append (ks ++ junk) x rest r (omega (arith, h, length-append ks junk))

  rephrased :
      (ks more more' zs : List A) (room room' : ℕ) (result result' : List A × ℕ)
      → result ≡ result'
      → more ≡ more'
      → room ≡ room'
      → Retained ks more' zs room' result'
      → Retained ks more zs room result
  rephrased ks more more' zs room room' result result' same list size (js, e, n) =
      subst (λ m. Retained ks m zs room result) (sym list) (js, same ∙ e, n ∙ sym size)

  kept_step :
      (f : A → Bool) (x : A) (n r w : ℕ) (items : List A)
      → get_elem? items r ≡ some x
      → f x ≡ true
      → retain_from f (suc n) r w items
        ≡ retain_from f n (r + 1) (w + 1) (if r == w then items else set items w x)
  unfolding retain_from
  kept_step f x n r w items at e = rw (at, e, retain_from) refl

  dropped_step :
      (f : A → Bool) (x : A) (n r w : ℕ) (items : List A)
      → get_elem? items r ≡ some x
      → f x ≡ false
      → retain_from f (suc n) r w items ≡ retain_from f n (r + 1) w items
  unfolding retain_from
  dropped_step f x n r w items at e = rw (at, e, retain_from) refl

  -- the loop of `retain` after it has kept `ks` and left `junk` between these and what is still to be read
  pub retain_from_lem :
      (f : A → Bool) (rest ks junk zs : List A) (r w : ℕ)
      → w ≡ length ks
      → r ≡ length ks + length junk
      → Retained ks
          (keep f rest)
          zs
          (length junk + length rest)
          (retain_from f (length rest) r w (ks ++ (junk ++ (rest ++ zs))))
  unfolding retain_from
  retain_from_lem f [] ks junk zs r w hw hr =
      (junk, ap₂ (λ a b. (a, b)) refl (omega (arith, hw)), omega arith)
  retain_from_lem f (x ∷ rest) ks junk zs r w hw hr =
      let at = read_at ks junk x (rest ++ zs) r hr in
      elim (Bool-cases (f x)) [
        | inl pass ↦
            rephrased ks (keep f (x ∷ rest)) (x ∷ keep f rest) zs (length junk + length (x ∷ rest))
              (length junk + length rest + 1)
              (retain_from f (length (x ∷ rest)) r w (ks ++ (junk ++ (x ∷ (rest ++ zs)))))
              (retain_from f (length rest) (r + 1) (w + 1) (
                if r == w
                then ks ++ (junk ++ (x ∷ (rest ++ zs)))
                else set (ks ++ (junk ++ (x ∷ (rest ++ zs)))) w x))
              (kept_step f x (length rest) r w (ks ++ (junk ++ (x ∷ (rest ++ zs)))) at pass)
              (rw (pass, keep) refl) (omega arith)
              (one_more ks x (keep f rest) zs (length junk + length rest)
                (retain_from f (length rest) (r + 1) (w + 1) (
                  if r == w
                  then ks ++ (junk ++ (x ∷ (rest ++ zs)))
                  else set (ks ++ (junk ++ (x ∷ (rest ++ zs)))) w x))
                (go junk hr (retain_from_lem f rest (ks ++ (x ∷ [])))))
        | inr fail ↦
            rephrased ks (keep f (x ∷ rest)) (keep f rest) zs (length junk + length (x ∷ rest))
              (length (junk ++ (x ∷ [])) + length rest)
              (retain_from f (length (x ∷ rest)) r w (ks ++ (junk ++ (x ∷ (rest ++ zs)))))
              (retain_from f (length rest) (r + 1) w (ks ++ ((junk ++ (x ∷ [])) ++ (rest ++ zs))))
              (dropped_step f x (length rest) r w (ks ++ (junk ++ (x ∷ (rest ++ zs)))) at fail
                ∙ ap (λ k. retain_from f (length rest) (r + 1) w (ks ++ k))
                    (sym (snoc_assoc junk x (rest ++ zs))))
              (rw (fail, keep) refl) (omega (arith, length-snoc junk x))
              (retain_from_lem f rest ks (junk ++ (x ∷ [])) zs (r + 1) w hw
                (omega (arith, hr, length-snoc junk x)))
      ]
    where
      go :
          (junk : List A)
          → r ≡ length ks + length junk
          → ((junk zs : List A) (r w : ℕ)
              → w ≡ length (ks ++ (x ∷ []))
              → r ≡ length (ks ++ (x ∷ [])) + length junk
              → Retained
                  (ks ++ (x ∷ []))
                  (keep f rest)
                  zs
                  (length junk + length rest)
                  (retain_from f (length rest) r w ((ks ++ (x ∷ [])) ++ (junk ++ (rest ++ zs)))))
          → Retained (ks ++ (x ∷ [])) (keep f rest) zs (length junk + length rest) (
              retain_from f (length rest) (r + 1) (w + 1) (
                if r == w
                then ks ++ (junk ++ (x ∷ (rest ++ zs)))
                else set (ks ++ (junk ++ (x ∷ (rest ++ zs)))) w x))
      go [] hr ih =
          let same : (r == w) ≡ true = ground arith in
          let later =
            ih [] zs (r + 1) (w + 1) (omega (arith, hw, length-snoc ks x))
              (omega (arith, hr, length-snoc ks x)) in
          rephrased (ks ++ (x ∷ [])) (keep f rest) (keep f rest) zs (0 + length rest)
            (0 + length rest) _ _
            (rw same (
              ap (retain_from f (length rest) (r + 1) (w + 1))
                (sym (snoc_assoc ks x (rest ++ zs)))))
            refl refl later
      go (m ∷ junk) hr ih =
          let differ : (r == w) ≡ false = ground arith in
          let later =
            ih (junk ++ (x ∷ [])) zs (r + 1) (w + 1) (omega (arith, hw, length-snoc ks x))
              (omega (arith, hr, length-snoc ks x, length-snoc junk x)) in
          rephrased (ks ++ (x ∷ [])) (keep f rest) (keep f rest) zs
            (length (m ∷ junk) + length rest) (length (junk ++ (x ∷ [])) + length rest) _ _
            (rw differ (
              ap (retain_from f (length rest) (r + 1) (w + 1)) (
                set-append ks m x (junk ++ (x ∷ (rest ++ zs))) w hw
                ∙ sym (snoc_assoc ks x (junk ++ (x ∷ (rest ++ zs))))
                ∙ ap (λ k. (ks ++ (x ∷ [])) ++ k) (sym (snoc_assoc junk x (rest ++ zs))))))
            refl (omega (arith, length-snoc junk x)) later
