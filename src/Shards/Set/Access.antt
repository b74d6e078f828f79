-- ===== src/Shards/Set/Access.antt =====
-- What access to one shard does to the accounts.
use saturn_crates.Prelude.{
  zero, suc, ℕ, ◌≡◌, refl, sym, ap, ◌∙◌, List, [], ◌∷◌, ◌++◌, none, some, ok, Result, get_elem?,
  set, Bool-cases, Option-cases, inl, inr, append_assoc,
}
use mathlib.Core.List.{Perm, perm_middle}
use mathlib.Core.List.Perm
use mathlib.Core.Path.{subst}
use saturn_crates.Shards.Set.{ShardSet, Loader, AccountError, load, load_mut, with_mut, write}
use saturn_crates.Shards.Set.Laws.{Sound, AllSound, All-get}

-- the shard of an account, rewritten
abbrev pub rewritten : {S : Type 0} → Loader S → S → Loader S
rewritten l s = record l { shard = some s }

module _ {S A : Type 0} where
  -- `with_mut` succeeds only on an account with a shard, which it rewrites and leaves all others.
  pub with_mut-ok :
      (idx : ℕ) (f : S → A × S) (shards : ShardSet S) (a : A)
      → (with_mut idx f shards).0 ≡ ok a
      → (l : Loader S) × (s : S) × (get_elem? shards.loaders idx ≡ some l)
        × (l.shard ≡ some s)
        × (a ≡ (f s).0)
        × ((with_mut idx f shards).1.loaders ≡ set shards.loaders idx (rewritten l (f s).1))
  unfolding with_mut write load_mut load
  with_mut-ok idx f shards a h = elim (Option-cases (get_elem? shards.loaders idx)) [
    | inl missing ↦ absurd (cc (rw (missing, with_mut) at h))
    | inr (l, at) ↦ elim (Bool-cases l.is_writable) [
      | inl writable ↦ elim (Option-cases l.shard) [
        | inl empty ↦ absurd (cc (rw (at, writable, empty, with_mut, write, load_mut, load) at h))
        | inr (s, full) ↦
            let loaded : load_mut l ≡ ok s = rw (writable, full, load_mut, load) refl in
            let gave : ◌≡◌ {A = Result AccountError A} (ok (f s).0) (ok a) =
              rw (at, loaded, with_mut, write) at h in
            (l, s, at, full, cc gave, rw (at, loaded, with_mut, write) refl)
      ]
      | inr readonly ↦ absurd (cc (rw (at, readonly, with_mut, write, load_mut) at h))
    ]
  ]

module _ {S : Type 0} (IsValid : S → Type 0) where
  -- the shard of a sound account is valid
  pub Sound-IsValid :
      (shards : ShardSet S) (idx : ℕ) (l : Loader S) (s : S)
      → AllSound IsValid shards
      → get_elem? shards.loaders idx ≡ some l
      → l.shard ≡ some s
      → IsValid s
  Sound-IsValid shards idx l s sound at full =
      rw full at (All-get (Sound IsValid) shards.loaders idx l sound at)

module _ {S B : Type 0} (of_shard : S → List B) where
  -- what an account holds, and all accounts together
  abbrev pub held_by : Loader S → List B
  held_by l = elim l.shard [ none ↦ [] | some s ↦ of_shard s ]

  abbrev pub held_in : List (Loader S) → List B
  held_in [] = []
  held_in (l ∷ ls) = held_by l ++ held_in ls

  -- An element that one shard gains is gained by all accounts together, and nothing else changes.
  pub held_in-gain :
      (ls : List (Loader S)) (idx : ℕ) (l : Loader S) (s s' : S) (b : B)
      → get_elem? ls idx ≡ some l
      → l.shard ≡ some s
      → of_shard s' ≡ of_shard s ++ (b ∷ [])
      → Perm (held_in (set ls idx (rewritten l s'))) (b ∷ held_in ls)
  held_in-gain [] idx l s s' b at full e = cc
  held_in-gain (k ∷ ls) zero l s s' b at full e =
      let same : k ≡ l = cc in
      let before : held_by k ≡ of_shard s = ap held_by same ∙ (rw full refl) in
      rw (e, before)
        (subst (λ k. Perm k (b ∷ (of_shard s ++ held_in ls)))
          (sym (append_assoc (of_shard s) (b ∷ []) (held_in ls)))
          (perm_middle (of_shard s) (held_in ls)))
  held_in-gain (k ∷ ls) (suc idx) l s s' b at full e =
      Perm.trans (Perm.append_left (held_by k) (held_in-gain ls idx l s s' b at full e))
        (perm_middle (held_by k) (held_in ls))

  -- A change that keeps what the shard holds keeps what all accounts hold.
  pub held_in-same :
      (ls : List (Loader S)) (idx : ℕ) (l : Loader S) (s s' : S)
      → get_elem? ls idx ≡ some l
      → l.shard ≡ some s
      → of_shard s' ≡ of_shard s
      → held_in (set ls idx (rewritten l s')) ≡ held_in ls
  held_in-same [] idx l s s' at full e = refl
  held_in-same (k ∷ ls) zero l s s' at full e =
      let same : k ≡ l = cc in
      let before : held_by k ≡ of_shard s = ap held_by same ∙ (rw full refl) in rw (e, before) refl
  held_in-same (k ∷ ls) (suc idx) l s s' at full e =
      ap (λ t. held_by k ++ t) (held_in-same ls idx l s s' at full e)
