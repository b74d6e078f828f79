-- ===== src/Collections/FixedList/Stack.antt =====
-- FixedList against a vector of bounded length: any sequence of calls of `push`, `pop` and
-- `iter_mut` gets the same replies, and leaves the same elements.
use saturn_crates.Prelude.{
  ℕ, ◌≡◌, refl, ap, sym, ◌∙◌, List, [], ◌∷◌, map, Option, Result, length, inl, inr, last_cases,
}
use saturn_crates.Collections.PushPop.{pop_vec, pop_vec-append}
use saturn_crates.Collections.FixedList.{FixedListError, FixedList, as_slice, iter_mut, push, pop}
use saturn_crates.Collections.FixedList.Laws.{
  IsValid, push_spec, push-IsValid, as_slice-push, pop-IsValid, as_slice-pop, pop_empty,
  iter_mut-IsValid, length-as_slice,
}

pub data Call (A : Type 0) : Type 0 where
  put : A → Call A
  get : Call A
  change : (A → A) → Call A

pub data Reply (A : Type 0) : Type 0 where
  done : Result FixedListError (Unit {0}) → Reply A
  item : Option A → Reply A

module _ {A : Type 0} where
  -- the calls in order on a list, with what each returns
  pub run : ℕ → List (Call A) → FixedList A → List (Reply A) × FixedList A
  run size [] l = ([], l)
  run size (put x ∷ calls) l =
      let (r, l') = push size l x in let (rs, last) = run size calls l' in (done r ∷ rs, last)
  run size (get ∷ calls) l =
      let (r, l') = pop l in let (rs, last) = run size calls l' in (item r ∷ rs, last)
  run size (change f ∷ calls) l = run size calls (iter_mut f l)

  -- the same calls on the vector of the elements
  pub replay : ℕ → List (Call A) → List A → List (Reply A) × List A
  replay size [] xs = ([], xs)
  replay size (put x ∷ calls) xs =
      let (r, xs') = push_spec size xs x in
      let (rs, last) = replay size calls xs' in (done r ∷ rs, last)
  replay size (get ∷ calls) xs =
      let (r, xs') = pop_vec xs in let (rs, last) = replay size calls xs' in (item r ∷ rs, last)
  replay size (change f ∷ calls) xs = replay size calls (map f xs)

  -- `pop` on the elements, empty lists included
  pub as_slice-pop-pop_vec :
      (size : ℕ) (l : FixedList A)
      → IsValid size l
      → let (r, l') = pop l in (r, as_slice l') ≡ pop_vec (as_slice l)
  unfolding pop_vec
  as_slice-pop-pop_vec size l v = elim (last_cases (as_slice l)) [
    | inl e ↦
        let zero_len : l.len ≡ 0 = sym (length-as_slice size l v) ∙ ap length e in
        rw (pop_empty l zero_len, e)
    | inr (xs, x, e) ↦
        let (top, rest) = as_slice-pop size l xs x v e in
        rw (e, top, rest) (sym (pop_vec-append xs x))
  ]

  abbrev after_put :
      ℕ → List (Call A) → Result FixedListError (Unit {0}) × List A → List (Reply A) × List A
  after_put size calls (r, xs) = (done r ∷ (replay size calls xs).0, (replay size calls xs).1)

  abbrev after_get : ℕ → List (Call A) → Option A × List A → List (Reply A) × List A
  after_get size calls (r, xs) = (item r ∷ (replay size calls xs).0, (replay size calls xs).1)

  -- From a valid list, any sequence of calls returns what the vector of its elements bounded by the
  -- capacity returns, and ends in a valid list of the vector's elements.
  pub run_refines :
      (size : ℕ) (calls : List (Call A)) (l : FixedList A)
      → IsValid size l
      → let (rs, last) = run size calls l in
        IsValid size last × ((rs, as_slice last) ≡ replay size calls (as_slice l))
  unfolding run replay
  run_refines size [] l v = (v, refl)
  run_refines size (put x ∷ calls) l v =
      let (valid, same) = run_refines size calls (push size l x).1 (push-IsValid size l x v) in
      (
        valid,
        ap (λ t. (done (push size l x).0 ∷ t.0, t.1)) same
            ∙ ap (after_put size calls) (as_slice-push size l x v),
      )
  run_refines size (get ∷ calls) l v =
      let (valid, same) = run_refines size calls (pop l).1 (pop-IsValid size l v) in
      (
        valid,
        ap (λ t. (item (pop l).0 ∷ t.0, t.1)) same
            ∙ ap (after_get size calls) (as_slice-pop-pop_vec size l v),
      )
  run_refines size (change f ∷ calls) l v =
      let (valid', slice) = iter_mut-IsValid size f l v in
      let (valid, same) = run_refines size calls (iter_mut f l) valid' in
      (valid, same ∙ ap (replay size calls) slice)
