-- ===== src/Shards/Modified/Partition.antt =====
-- The outputs of a transaction fall into those with runes and those without.
use saturn_crates.Prelude.{
  ℕ, zero, suc, ◌<◌, ◌≡◌, refl, sym, ap, ◌∙◌, List, [], ◌∷◌, ◌++◌, some, ok, ltb, if◌then◌else◌,
  length, get_elem?, set, All, arith, Bool-cases, inl, inr, last_cases, append_assoc, append-nil,
  length-append, try_,
}
use mathlib.Core.Path.{subst}
use mathlib.Core.List.{Perm, perm_middle}
use mathlib.Core.List.Perm
use saturn_crates.Collections.PushPop.{pop_vec, pop_vec-append}
use saturn_crates.Transactions.Builder.State.{UtxoInfo}
use saturn_crates.Shards.Modified.{swapped, swap_remove, split_runes}

abbrev pub WithRunes : UtxoInfo → Type 0
WithRunes u = 0 < u.runes.len

abbrev pub WithoutRunes : UtxoInfo → Type 0
WithoutRunes u = u.runes.len ≡ 0

get_elem?-append :
    (xs ys : List UtxoInfo) (u : UtxoInfo) → get_elem? (xs ++ (u ∷ ys)) (length xs) ≡ some u
get_elem?-append [] ys u = refl
get_elem?-append (x ∷ xs) ys u = get_elem?-append xs ys u

set-append :
    (xs ys : List UtxoInfo) (u v : UtxoInfo) → set (xs ++ (u ∷ ys)) (length xs) v ≡ xs ++ (v ∷ ys)
set-append [] ys u v = refl
set-append (x ∷ xs) ys u v = ap (λ l. x ∷ l) (set-append xs ys u v)

swap_remove_last :
    (xs : List UtxoInfo) (u : UtxoInfo) → swap_remove (length xs) (xs ++ (u ∷ [])) ≡ xs
swap_remove_last xs u = rw (pop_vec-append xs u, swap_remove) (ground arith)

swap_remove_inner :
    (xs zs : List UtxoInfo) (u l : UtxoInfo)
    → swap_remove (length xs) (xs ++ (u ∷ (zs ++ (l ∷ [])))) ≡ xs ++ (l ∷ zs)
swap_remove_inner xs zs u l =
    ap (λ p. swapped (length xs) p.0 p.1)
      (ap pop_vec (sym (append_assoc xs (u ∷ zs) (l ∷ []))) ∙ pop_vec-append (xs ++ (u ∷ zs)) l)
    ∙ inner
  where
    inner : swapped (length xs) (some l) (xs ++ (u ∷ zs)) ≡ xs ++ (l ∷ zs)
    inner = ground (arith, length-append xs (u ∷ zs), set-append xs zs u l)

All-last :
    (P : UtxoInfo → Type 0) (zs : List UtxoInfo) (l : UtxoInfo)
    → All P (zs ++ (l ∷ []))
    → All P zs × P l
All-last P [] l a = (tt, a.0)
All-last P (z ∷ zs) l a = let (rest, last) = All-last P zs l a.1 in ((a.0, rest), last)

-- what the loop does with a list of which all behind the first `i` have no runes
abbrev pub Parted : List UtxoInfo → List UtxoInfo → List UtxoInfo → Type 0
Parted us runes left = Perm (runes ++ left) us × All WithRunes runes × All WithoutRunes left

take_out :
    (xs ys : List UtxoInfo) (u : UtxoInfo)
    → All WithoutRunes ys
    → (ws : List UtxoInfo) × (swap_remove (length xs) (xs ++ (u ∷ ys)) ≡ xs ++ ws)
      × All WithoutRunes ws
      × Perm (u ∷ (xs ++ ws)) (xs ++ (u ∷ ys))
take_out xs ys u a = elim (last_cases ys) [
  | inl empty ↦ (
    [],
    ap (λ l. swap_remove (length xs) (xs ++ (u ∷ l))) empty
        ∙ swap_remove_last xs u
        ∙ sym (append-nil xs),
    tt,
    subst (λ l. Perm (u ∷ (xs ++ [])) (xs ++ (u ∷ l))) (sym empty) (Perm.symm (perm_middle xs [])),
  )
  | inr (zs, l, split) ↦
      let (front, last) = All-last WithoutRunes zs l (subst (All WithoutRunes) split a) in
      let turned : Perm (l ∷ zs) (zs ++ (l ∷ [])) =
        Perm.symm
          (subst (λ k. Perm (zs ++ (l ∷ [])) (l ∷ k)) (append-nil zs) (perm_middle zs [])) in
      (
        l ∷ zs,
        ap (λ k. swap_remove (length xs) (xs ++ (u ∷ k))) split ∙ swap_remove_inner xs zs u l,
        (last, front),
        subst (λ k. Perm (u ∷ (xs ++ (l ∷ zs))) (xs ++ (u ∷ k))) (sym split)
            (Perm.trans (Perm.symm (perm_middle xs (l ∷ zs)))
              (Perm.append_left xs (Perm.cons u turned))),
      )
]

split_runes_run :
    (xs ys : List UtxoInfo) (u : UtxoInfo)
    → split_runes (suc (length xs)) (xs ++ (u ∷ ys)) ≡ (
        if ltb 0 u.runes.len
        then (try_
            (split_runes (length xs) (swap_remove (length xs) (xs ++ (u ∷ ys))))
            λ t. ok (u ∷ t.0, t.1))
        else split_runes (length xs) (xs ++ (u ∷ ys)))
unfolding split_runes
split_runes_run xs ys u = rw (get_elem?-append xs ys u, split_runes) refl

split_runes-Parted :
    (i : ℕ) (xs ys : List UtxoInfo)
    → length xs ≡ i
    → All WithoutRunes ys
    → (runes : List UtxoInfo) × (left : List UtxoInfo) × (split_runes i (xs ++ ys)
        ≡ ok (runes, left))
      × Parted (xs ++ ys) runes left
unfolding split_runes
split_runes-Parted zero [] ys l a = ([], ys, refl, (Perm.refl ys, tt, a))
split_runes-Parted zero (x ∷ xs) ys l a = absurd (omega (arith, l))
split_runes-Parted (suc i) xs ys l a = elim (last_cases xs) [
  | inl empty ↦ absurd (omega (arith, l, ap length empty))
  | inr (front, u, split) ↦
      let len : length front ≡ i =
        omega (arith, l, ap length split, length-append front (u ∷ [])) in
      let shape : xs ++ ys ≡ front ++ (u ∷ ys) =
        ap (λ k. k ++ ys) split ∙ append_assoc front (u ∷ []) ys in
      subst
        (λ k.
          (runes : List UtxoInfo) × (left : List UtxoInfo) × (split_runes (suc i) k
            ≡ ok (runes, left))
          × Parted k runes left)
        (sym shape) (go front u len (λ zs b. split_runes-Parted i front zs len b))
]
  where
    go :
        (front : List UtxoInfo) (u : UtxoInfo)
        → length front ≡ i
        → ((zs : List UtxoInfo)
            → All WithoutRunes zs
            → (runes : List UtxoInfo) × (left : List UtxoInfo) × (split_runes i (front ++ zs)
                ≡ ok (runes, left))
              × Parted (front ++ zs) runes left)
        → (runes : List UtxoInfo) × (left : List UtxoInfo) × (split_runes
              (suc i)
              (front ++ (u ∷ ys))
            ≡ ok (runes, left))
          × Parted (front ++ (u ∷ ys)) runes left
    go front u len ih =
        let run =
          subst
            (λ k. split_runes (suc k) (front ++ (u ∷ ys)) ≡ (
              if ltb 0 u.runes.len
              then (try_ (split_runes k (swap_remove k (front ++ (u ∷ ys)))) λ t. ok (u ∷ t.0, t.1))
              else split_runes k (front ++ (u ∷ ys))))
            len (split_runes_run front ys u) in
        elim (Bool-cases (ltb 0 u.runes.len)) [
          | inr bare ↦
              let (runes, left, done, parted) = ih (u ∷ ys) (ground arith, a) in
              (runes, left, run ∙ rw bare done, parted)
          | inl laden ↦
              let (ws, moved, none_laden, perm) = take_out front ys u a in
              let (runes, left, done, (perm', full, bare)) = ih ws none_laden in
              (
                u ∷ runes,
                left,
                run
                    ∙ rw laden (
                        rw (ap (λ k. swap_remove k (front ++ (u ∷ ys))) (sym len) ∙ moved, done)
                          refl),
                (Perm.trans (Perm.cons u perm') perm, (ground arith, full), bare),
              )
        ]

-- The loop takes out the outputs that have runes and leaves those that have none: together they are the
-- outputs given, rearranged. It never panics.
pub split_runes_lem :
    (us : List UtxoInfo)
    → (runes : List UtxoInfo) × (left : List UtxoInfo) × (split_runes (length us) us
        ≡ ok (runes, left))
      × Parted us runes left
split_runes_lem us =
    subst
      (λ k.
        (runes : List UtxoInfo) × (left : List UtxoInfo) × (split_runes (length us) k
          ≡ ok (runes, left))
        × Parted k runes left)
      (append-nil us) (split_runes-Parted (length us) us [] refl tt)
