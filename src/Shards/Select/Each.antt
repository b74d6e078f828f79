-- ===== src/Shards/Select/Each.antt =====
-- What `select_with` selects, and what `for_each_mut` does to the selected shards.
use mathlib.Core.Option
use mathlib.Core.Path.{subst}
use saturn_crates.Prelude.{
  ℕ, ◌+◌, ◌≡◌, ◌≤◌, ◌<◌, ◌⊎◌, refl, sym, ap, ap₂, ◌∙◌, List, [], ◌∷◌, ◌++◌, map, true, false,
  Option, none, some, Result, ok, panicked, length, get_elem?, set, any, ◌==◌, if◌then◌else◌, All,
  arith, get_elem?-set_self, get_elem?-set_ne, append_assoc, append-nil, inl, inr, Option-cases,
  Bool-cases,
}
use saturn_crates.Prelude.Members.{NoRepeats}
use saturn_crates.Collections.FixedList
use saturn_crates.Collections.FixedList.{FixedList, full}
use saturn_crates.Collections.FixedList.Laws.{
  IsValid, new-IsValid, push-IsValid, push_fits, from_slice_lem,
}
use saturn_crates.Shards.Set.{ShardSet, Loader, load, load_mut, with_mut, write}
use saturn_crates.Shards.Select.{
  slice, into_indices, push_each, from_loaders, select_with, mut_each, for_each_mut,
}

push_each_lem :
    (max : ℕ) (s : List ℕ) (l : FixedList ℕ)
    → IsValid max l
    → l.len + length s ≤ max
    → ((push_each max s l).0 ≡ ok tt)
      × (FixedList.as_slice (push_each max s l).1 ≡ FixedList.as_slice l ++ s)
unfolding push_each
push_each_lem max [] l v h = (refl, sym (append-nil (FixedList.as_slice l)))
push_each_lem max (i ∷ s) l v h =
    let (done, grown, same) = push_fits max l i v (omega (arith, h)) in
    let (all, rest) =
      push_each_lem max s (FixedList.push max l i).1 (push-IsValid max l i v)
        (omega (arith, h, grown)) in
    rw (done, push_each)
      (all, rest ∙ ap (λ k. k ++ s) same ∙ append_assoc (FixedList.as_slice l) (i ∷ []) s)

module _ {S : Type 0} where
  -- The indices of a slice are selected as they are, in their order, whether or not they repeat; a slice
  -- longer than the set allows makes the call panic.
  pub select_with_slice :
      (max : ℕ) (loaders : List (Loader S)) (s : List ℕ)
      → ((length s ≤ max)
          × (select_with max (from_loaders max loaders) (slice s)
              ≡ ok (record { loaders = loaders; selected = s })))
        ⊎ ((max < length s) × (select_with max (from_loaders max loaders) (slice s) ≡ panicked))
  unfolding select_with into_indices from_loaders
  select_with_slice max loaders s = elim (from_slice_lem max 0 s) [
    | inl (fits, (l, made, v, same)) ↦
        let (done, all) =
          push_each_lem max s (FixedList.new max 0) (new-IsValid max 0) (omega (arith, fits)) in
        inl (
          fits,
          rw (made, into_indices, select_with)
              (rw (same, done)
                (ap {B = Result FixedList.FixedListError (ShardSet S)}
                  (λ k. ok (record { loaders = loaders; selected = k })) all)),
        )
    | inr (long, panic) ↦ inr (long, rw (panic, into_indices, select_with) refl)
  ]

  abbrev pub shard_at : ShardSet S → ℕ → Option S
  shard_at shards j = elim (get_elem? shards.loaders j) [ none ↦ none | some l ↦ l.shard ]

  -- The account is writable and has a shard.
  abbrev pub Ready : ShardSet S → ℕ → Type 0
  Ready shards i = elim (get_elem? shards.loaders i) [
    | none ↦ ⊥
    | some l ↦
        (l.is_writable ≡ true) × (elim l.shard as (λ _. Type 0) [ none ↦ ⊥ | some s ↦ Unit {0} ])
  ]

  account-Ready :
      (shards : ShardSet S) (i : ℕ)
      → Ready shards i
      → (l : Loader S) × (s : S) × (get_elem? shards.loaders i ≡ some l)
        × (l.shard ≡ some s)
        × (l.is_writable ≡ true)
  account-Ready shards i r = elim (Option-cases (get_elem? shards.loaders i)) [
    | inl missing ↦ absurd (rw (missing, Ready) at r)
    | inr (l, at) ↦
        let r' = rw (at, Ready) at r in
        elim (Option-cases l.shard) [
          | inl empty ↦ absurd (rw empty at r'.1)
          | inr (s, has) ↦ (l, s, at, has, r'.0)
        ]
  ]

  -- An account other than the one that is rewritten is as before.
  other_account :
      (ls : List (Loader S)) (sel : List ℕ) (i j : ℕ) (l : Loader S)
      → (i == j) ≡ false
      → get_elem? (set ls i l) j ≡ get_elem? ls j
  other_account ls sel i j l h = get_elem?-set_ne ls i j l (ground arith)

  still-Ready :
      (shards : ShardSet S) (i : ℕ) (l : Loader S) (is : List ℕ)
      → any (λ j. i == j) is ≡ false
      → All (Ready shards) is
      → All (Ready (record shards { loaders = set shards.loaders i l })) is
  still-Ready shards i l [] h r = tt
  still-Ready shards i l (j ∷ is) h r = elim (Bool-cases (i == j)) [
    | inl same ↦ absurd (ground arith)
    | inr differ ↦ (
      rw (other_account shards.loaders [] i j l differ, Ready) r.0,
      still-Ready shards i l is (ground arith) r.1,
    )
  ]

  module _ {R : Type 0} (f : S → R × S) where
    same_outs :
        (shards : ShardSet S) (i : ℕ) (l : Loader S) (is : List ℕ)
        → any (λ j. i == j) is ≡ false
        → map
            (λ k.
              Option.map
                (λ s. (f s).0)
                (shard_at (record shards { loaders = set shards.loaders i l }) k))
            is
          ≡ map (λ k. Option.map (λ s. (f s).0) (shard_at shards k)) is
    same_outs shards i l [] h = refl
    same_outs shards i l (j ∷ is) h = elim (Bool-cases (i == j)) [
      | inl same ↦ absurd (ground arith)
      | inr differ ↦
          ap₂ (λ x xs. x ∷ xs)
            (ap (λ k. Option.map (λ s. (f s).0) (elim k [ none ↦ none | some l ↦ l.shard ]))
              (other_account shards.loaders [] i j l differ))
            (same_outs shards i l is (ground arith))
    ]

    mut_step :
        (i : ℕ) (shards : ShardSet S) (l : Loader S) (s : S)
        → get_elem? shards.loaders i ≡ some l
        → l.shard ≡ some s
        → l.is_writable ≡ true
        → with_mut i f shards ≡ (
          ok (f s).0,
          record shards { loaders = set shards.loaders i (record l { shard = some (f s).1 }) },
        )
    unfolding with_mut write load_mut load
    mut_step i shards l s at has writable =
        let loaded : load_mut l ≡ ok s = rw (writable, has, load_mut, load) refl in
        rw (at, loaded, with_mut, write) refl

    -- what the loop does: its results, and the shard `j`
    abbrev pub EachDone : ShardSet S → List ℕ → ℕ → List R → Type 0
    EachDone shards is j outs =
        ((mut_each f is shards).0 ≡ ok outs)
        × (map some outs ≡ map (λ i. Option.map (λ s. (f s).0) (shard_at shards i)) is)
        × (shard_at (mut_each f is shards).1 j ≡ (
            if any (λ i. i == j) is
            then Option.map (λ s. (f s).1) (shard_at shards j)
            else shard_at shards j))

    absent : (i : ℕ) (is : List ℕ) → any (λ k. i == k) is ≡ false → any (λ k. k == i) is ≡ false
    absent i [] h = refl
    absent i (k ∷ is) h = ground (arith, absent i is)

    seen :
        (shards : ShardSet S) (i j : ℕ) (l : Loader S) (s : S) (is : List ℕ)
        → get_elem? shards.loaders i ≡ some l
        → l.shard ≡ some s
        → any (λ k. i == k) is ≡ false
        → let next : ShardSet S = record shards {
          loaders = set shards.loaders i (record l { shard = some (f s).1 });
        } in
          (if any (λ k. k == j) is
            then Option.map (λ s. (f s).1) (shard_at next j)
            else shard_at next j)
          ≡ (if any (λ k. k == j) (i ∷ is)
              then Option.map (λ s. (f s).1) (shard_at shards j)
              else shard_at shards j)
    seen shards i j l s is at has n = elim (Bool-cases (i == j)) [
      | inl same ↦
          let e : i ≡ j = ground arith in
          let here : get_elem? shards.loaders j ≡ some l =
            subst (λ k. get_elem? shards.loaders k ≡ some l) e at in
          let gone : any (λ k. k == j) is ≡ false =
            subst (λ m. any (λ k. k == m) is ≡ false) e (absent i is n) in
          let wrote =
            subst
              (λ m.
                get_elem? (set shards.loaders m (record l { shard = some (f s).1 })) j
                ≡ some (record l { shard = some (f s).1 }))
              (sym e)
              (get_elem?-set_self shards.loaders j (record l { shard = some (f s).1 }) l here) in
          ap
            (λ b.
              if b
              then Option.map (λ s. (f s).1)
                  (shard_at
                    (record shards {
                      loaders = set shards.loaders i (record l { shard = some (f s).1 });
                    })
                    j)
              else shard_at
                  (record shards {
                    loaders = set shards.loaders i (record l { shard = some (f s).1 });
                  })
                  j)
            gone
          ∙ rw (wrote, shard_at) (rw (same, any) (rw (here, shard_at) (rw has refl)))
      | inr differ ↦
          rw (differ, any)
            (rw
              (
                other_account shards.loaders [] i j (record l { shard = some (f s).1 }) differ,
                shard_at,
              )
              refl)
    ]

    mut_each_lem :
        (is : List ℕ) (shards : ShardSet S) (j : ℕ)
        → NoRepeats is
        → All (Ready shards) is
        → (outs : List R) × EachDone shards is j outs
    unfolding mut_each
    mut_each_lem [] shards j n r = ([], (refl, refl, refl))
    mut_each_lem (i ∷ is) shards j n r =
        let (l, s, at, has, writable) = account-Ready shards i r.0 in
        let step = mut_step i shards l s at has writable in
        let l' : Loader S = record l { shard = some (f s).1 } in
        let next : ShardSet S = record shards { loaders = set shards.loaders i l' } in
        let (outs, (done, gave, left)) =
          mut_each_lem is next j n.1 (still-Ready shards i l' is n.0 r.1) in
        let here : shard_at shards i ≡ some s = rw (at, shard_at) has in
        (
          (f s).0 ∷ outs,
          (
            rw (step, done, mut_each) refl,
            ap₂ (λ x xs. x ∷ xs) (sym (ap (Option.map (λ s. (f s).0)) here))
                (gave ∙ same_outs shards i l' is n.0),
            rw (step, done, mut_each) (left ∙ seen shards i j l s is at has n.0),
          ),
        )

    -- Where the selected accounts are writable, have shards and are all different, the call succeeds: it
    -- gives what `f` gives at each selected shard, in the order of the selection, and changes each selected
    -- shard by `f` once, and no other.
    pub for_each_mut-EachDone :
        (shards : ShardSet S) (j : ℕ)
        → NoRepeats shards.selected
        → All (Ready shards) shards.selected
        → (outs : List R) × ((for_each_mut f shards).0 ≡ ok outs)
          × (map some outs
              ≡ map (λ i. Option.map (λ s. (f s).0) (shard_at shards i)) shards.selected)
          × (shard_at (for_each_mut f shards).1 j ≡ (
              if any (λ i. i == j) shards.selected
              then Option.map (λ s. (f s).1) (shard_at shards j)
              else shard_at shards j))
    unfolding for_each_mut
    for_each_mut-EachDone shards j n r =
        let (outs, (done, gave, left)) = mut_each_lem shards.selected shards j n r in
        (outs, done, gave, left)
