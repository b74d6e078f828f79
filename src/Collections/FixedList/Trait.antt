-- ===== src/Collections/FixedList/Trait.antt =====
-- FixedList implements the trait PushPopCollection, and keeps its laws.
use saturn_crates.Prelude.{ℕ, sym, map_err, arith}
use saturn_crates.Collections.PushPop
use saturn_crates.Collections.PushPop.{PushPop, IsPushPop}
use saturn_crates.Collections.FixedList.{FixedList, as_slice, push, pop}
use saturn_crates.Collections.FixedList.Laws.{
  IsValid, push-IsValid, as_slice-push, pop-IsValid, as_slice-pop, length-as_slice,
}

unfoldable pub list_push_pop : ℕ → (A : Type 0) → PushPop (FixedList A) A
list_push_pop size A = record {
  push = λ l x. let (r, l') = push size l x in (map_err (λ _. PushPop.full) r, l');
  pop = pop;
  as_slice = as_slice;
  len = λ l. l.len;
}

module _ (size : ℕ) (A : Type 0) where
  pub pushed :
      (l : FixedList A) (x : A)
      → IsValid size l
      → PushPop.Pushed (list_push_pop size A) l x ((list_push_pop size A).push l x)
  unfolding list_push_pop push
  pushed l x v = ground (arith, as_slice-push size l x v)

  -- A valid FixedList is a stack in the sense of PushPopCollection.
  unfoldable pub list_push_pop-IsPushPop : IsPushPop (list_push_pop size A)
  unfolding list_push_pop
  list_push_pop-IsPushPop = record {
    IsValid = IsValid size;
    push-IsValid = push-IsValid size;
    push-Pushed = pushed;
    pop-IsValid = pop-IsValid size;
    pop-append = as_slice-pop size;
    len-as_slice = λ l v. sym (length-as_slice size l v);
  }
