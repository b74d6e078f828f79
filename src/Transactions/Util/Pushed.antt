-- ===== src/Transactions/Util/Pushed.antt =====
-- What the loops over the accounts and over the outputs append.
use mathlib.Core.Path.{subst}
use saturn_crates.Prelude.{
  ℕ, ◌+◌, ◌≡◌, ◌≤◌, refl, length, sym, ap, ◌∙◌, List, [], ◌∷◌, ◌++◌, Bool, true, false, Option,
  none, some, ok, leb, if◌then◌else◌, find_first, arith, append-nil, append_assoc, Bool-cases, inl,
  inr,
}
use saturn_crates.Prelude.Exec.{M, continue, continue-ok}
use saturn_crates.Collections.FixedList
use saturn_crates.Collections.FixedList.{FixedList, FixedListError}
use saturn_crates.Collections.FixedList.Laws.{IsValid, push-IsValid, push_fits}
use saturn_crates.Transactions.Chain.{Script, TxOut}
use saturn_crates.Transactions.Builder.State.{AccountInfo}
use saturn_crates.Transactions.Util.{push_writable, pays_to, push_matches}

-- the indices of the writable accounts, from `i` on
abbrev pub writable_from : ℕ → List AccountInfo → List ℕ
writable_from i [] = []
writable_from i (a ∷ rest) =
    if a.is_writable then i ∷ writable_from (i + 1) rest else writable_from (i + 1) rest

push-ok :
    (size : ℕ) (l : FixedList ℕ) (x : ℕ)
    → IsValid size l
    → (FixedList.push size l x).0 ≡ ok tt
    → FixedList.as_slice (FixedList.push size l x).1 ≡ FixedList.as_slice l ++ (x ∷ [])
unfolding FixedList.push
push-ok size l x v h = elim (Bool-cases (leb size l.len)) [
  | inl full ↦ absurd (cc (rw (full, FixedList.push) at h))
  | inr room ↦ let (done, grown, all) = push_fits size l x v (ground (arith, room)) in all
]

-- The call succeeded and appended the numbers.
abbrev pub Appends : ℕ → FixedList ℕ → List ℕ → FixedList ℕ → Type 0
Appends size l xs l' = IsValid size l' × (FixedList.as_slice l' ≡ FixedList.as_slice l ++ xs)

none-Appends : (size : ℕ) (l : FixedList ℕ) → IsValid size l → Appends size l [] l
none-Appends size l v = (v, sym (append-nil (FixedList.as_slice l)))

first-Appends :
    (size : ℕ) (l l' : FixedList ℕ) (x : ℕ) (xs : List ℕ)
    → IsValid size l
    → (FixedList.push size l x).0 ≡ ok tt
    → Appends size (FixedList.push size l x).1 xs l'
    → Appends size l (x ∷ xs) l'
first-Appends size l l' x xs v pushed (v', e) = (
  v',
  e
      ∙ ap (λ k. k ++ xs) (push-ok size l x v pushed)
      ∙ append_assoc (FixedList.as_slice l) (x ∷ []) xs,
)

-- a push, and what follows it
push_then :
    (size : ℕ) (l : FixedList ℕ) (x : ℕ) (xs : List ℕ)
    (later : M (FixedList ℕ) FixedListError (Unit {0}))
    → IsValid size l
    → ((l : FixedList ℕ) → IsValid size l → (later l).0 ≡ ok tt → Appends size l xs (later l).1)
    → (continue (FixedList.push size l x).0 (λ _. later) (FixedList.push size l x).1).0 ≡ ok tt
    → Appends size l
        (x ∷ xs)
        (continue (FixedList.push size l x).0 (λ _. later) (FixedList.push size l x).1).1
push_then size l x xs later v rest h =
    let (u, pushed, next) =
      continue-ok (FixedList.push size l x).0 (λ _. later) (FixedList.push size l x).1 tt h in
    let after =
      rest (FixedList.push size l x).1 (push-IsValid size l x v) (ap (λ k. k.0) (sym next) ∙ h) in
    subst (λ k. Appends size l (x ∷ xs) k) (ap (λ k. k.1) (sym next))
      (first-Appends size l (later (FixedList.push size l x).1).1 x xs v pushed after)

-- the push of a writable account, and what follows it
push_if :
    (b : Bool) (size : ℕ) (l : FixedList ℕ) (x : ℕ) (xs : List ℕ)
    (later : M (FixedList ℕ) FixedListError (Unit {0}))
    → IsValid size l
    → ((l : FixedList ℕ) → IsValid size l → (later l).0 ≡ ok tt → Appends size l xs (later l).1)
    → ((if b
          then (λ s. continue (FixedList.push size s x).0 (λ _. later) (FixedList.push size s x).1)
          else later)
        l).0
      ≡ ok tt
    → Appends size l
        (if b then x ∷ xs else xs)
        ((if b
            then (λ s.
                continue (FixedList.push size s x).0 (λ _. later) (FixedList.push size s x).1)
            else later)
          l).1
push_if true size l x xs later v rest h = push_then size l x xs later v rest h
push_if false size l x xs later v rest h = rest l v h

pub push_writable-Appends :
    (size i : ℕ) (accounts : List AccountInfo) (l : FixedList ℕ)
    → IsValid size l
    → (push_writable size i accounts l).0 ≡ ok tt
    → Appends size l (writable_from i accounts) (push_writable size i accounts l).1
unfolding push_writable
push_writable-Appends size i [] l v h = none-Appends size l v
push_writable-Appends size i (a ∷ rest) l v h =
    push_if a.is_writable size l i (writable_from (i + 1) rest) (push_writable size (i + 1) rest) v
      (push_writable-Appends size (i + 1) rest) h

-- a push that there is a place for, and what follows it
push_fits_then :
    (size : ℕ) (l : FixedList ℕ) (x : ℕ) (xs : List ℕ)
    (later : M (FixedList ℕ) FixedListError (Unit {0}))
    → IsValid size l
    → l.len + length (x ∷ xs) ≤ size
    → ((l : FixedList ℕ) → IsValid size l → l.len + length xs ≤ size → (later l).0 ≡ ok tt)
    → (continue (FixedList.push size l x).0 (λ _. later) (FixedList.push size l x).1).0 ≡ ok tt
push_fits_then size l x xs later v h rest =
    let (done, grown, _) = push_fits size l x v (omega (arith, h)) in
    subst (λ r. (continue r (λ _. later) (FixedList.push size l x).1).0 ≡ ok tt) (sym done)
      (rest (FixedList.push size l x).1 (push-IsValid size l x v) (omega (arith, grown, h)))

push_fits_if :
    (b : Bool) (size : ℕ) (l : FixedList ℕ) (x : ℕ) (xs : List ℕ)
    (later : M (FixedList ℕ) FixedListError (Unit {0}))
    → IsValid size l
    → l.len + length (if b then x ∷ xs else xs) ≤ size
    → ((l : FixedList ℕ) → IsValid size l → l.len + length xs ≤ size → (later l).0 ≡ ok tt)
    → ((if b
          then (λ s. continue (FixedList.push size s x).0 (λ _. later) (FixedList.push size s x).1)
          else later)
        l).0
      ≡ ok tt
push_fits_if true size l x xs later v h rest = push_fits_then size l x xs later v h rest
push_fits_if false size l x xs later v h rest = rest l v h

pub push_writable_fits :
    (size i : ℕ) (accounts : List AccountInfo) (l : FixedList ℕ)
    → IsValid size l
    → l.len + length (writable_from i accounts) ≤ size
    → (push_writable size i accounts l).0 ≡ ok tt
unfolding push_writable
push_writable_fits size i [] l v h = refl
push_writable_fits size i (a ∷ rest) l v h =
    push_fits_if a.is_writable size l i (writable_from (i + 1) rest)
      (push_writable size (i + 1) rest) v h (push_writable_fits size (i + 1) rest)

module _ (script : ℕ → Script) where
  -- of each output the first account that it pays to, if there is one
  abbrev pub matches : List AccountInfo → List ℕ → List TxOut → List ℕ
  matches accounts indexes [] = []
  matches accounts indexes (o ∷ outputs) = elim (find_first (pays_to script accounts o) indexes) [
    | none ↦ matches accounts indexes outputs
    | some i ↦ i ∷ matches accounts indexes outputs
  ]

  push_found :
      (found : Option ℕ) (size : ℕ) (l : FixedList ℕ) (xs : List ℕ)
      (later : M (FixedList ℕ) FixedListError (Unit {0}))
      → IsValid size l
      → ((l : FixedList ℕ) → IsValid size l → (later l).0 ≡ ok tt → Appends size l xs (later l).1)
      → ((elim found as (λ _. M (FixedList ℕ) FixedListError (Unit {0})) [
        | none ↦ later
        | some i ↦
            (λ s. continue (FixedList.push size s i).0 (λ _. later) (FixedList.push size s i).1)
      ])
          l).0
        ≡ ok tt
      → Appends size l
          (elim found as (λ _. List ℕ) [ none ↦ xs | some i ↦ i ∷ xs ])
          ((elim found as (λ _. M (FixedList ℕ) FixedListError (Unit {0})) [
            | none ↦ later
            | some i ↦
                (λ s. continue (FixedList.push size s i).0 (λ _. later) (FixedList.push size s i).1)
          ])
            l).1
  push_found none size l xs later v rest h = rest l v h
  push_found (some i) size l xs later v rest h = push_then size l i xs later v rest h

  pub push_matches-Appends :
      (size : ℕ) (accounts : List AccountInfo) (indexes : List ℕ) (outputs : List TxOut)
      (l : FixedList ℕ)
      → IsValid size l
      → (push_matches script size accounts indexes outputs l).0 ≡ ok tt
      → Appends size l
          (matches accounts indexes outputs)
          (push_matches script size accounts indexes outputs l).1
  unfolding push_matches
  push_matches-Appends size accounts indexes [] l v h = none-Appends size l v
  push_matches-Appends size accounts indexes (o ∷ outputs) l v h =
      push_found (find_first (pays_to script accounts o) indexes) size l
        (matches accounts indexes outputs) (push_matches script size accounts indexes outputs) v
        (push_matches-Appends size accounts indexes outputs) h

  push_fits_found :
      (found : Option ℕ) (size : ℕ) (l : FixedList ℕ) (xs : List ℕ)
      (later : M (FixedList ℕ) FixedListError (Unit {0}))
      → IsValid size l
      → l.len + length (elim found as (λ _. List ℕ) [ none ↦ xs | some i ↦ i ∷ xs ]) ≤ size
      → ((l : FixedList ℕ) → IsValid size l → l.len + length xs ≤ size → (later l).0 ≡ ok tt)
      → ((elim found as (λ _. M (FixedList ℕ) FixedListError (Unit {0})) [
        | none ↦ later
        | some i ↦
            (λ s. continue (FixedList.push size s i).0 (λ _. later) (FixedList.push size s i).1)
      ])
          l).0
        ≡ ok tt
  push_fits_found none size l xs later v h rest = rest l v h
  push_fits_found (some i) size l xs later v h rest = push_fits_then size l i xs later v h rest

  pub push_matches_fits :
      (size : ℕ) (accounts : List AccountInfo) (indexes : List ℕ) (outputs : List TxOut)
      (l : FixedList ℕ)
      → IsValid size l
      → l.len + length (matches accounts indexes outputs) ≤ size
      → (push_matches script size accounts indexes outputs l).0 ≡ ok tt
  unfolding push_matches
  push_matches_fits size accounts indexes [] l v h = refl
  push_matches_fits size accounts indexes (o ∷ outputs) l v h =
      push_fits_found (find_first (pays_to script accounts o) indexes) size l
        (matches accounts indexes outputs) (push_matches script size accounts indexes outputs) v h
        (push_matches_fits size accounts indexes outputs)
