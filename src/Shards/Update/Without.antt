-- ===== src/Shards/Update/Without.antt =====
-- One step of the removal of a spent UTXO: what it does to a shard, and to the accounts.
use saturn_crates.Prelude.{
  ℕ, zero, suc, ◌≡◌, refl, sym, ap, ◌∙◌, ◌⊎◌, List, [], ◌∷◌, Bool, false, not, Option, none, some,
  ok, All, get_elem?, set, keep, any, arith, Bool-cases, Option-cases, inl, inr,
}
use mathlib.Core.Path.{subst}
use saturn_crates.Shards.Errors.{StateShardError, rune_amount_addition_overflow}
use saturn_crates.Prelude.Exec.{M, map_err_m, map_err-ok}
use saturn_crates.Transactions.Chain.{UtxoMeta, outpoint_eq}
use saturn_crates.Transactions.Builder.State.{UtxoInfo}
use saturn_crates.Shards.Set.{StateShard, ShardSet, Loader, with_mut}
use saturn_crates.Shards.Set.Laws.{Laws, Sound, AllSound, All-set}
use saturn_crates.Shards.Set.Access.{with_mut-ok, Sound-IsValid}
use saturn_crates.Shards.Update.{without}

abbrev pub is_at : UtxoMeta → UtxoInfo → Bool
is_at meta u = outpoint_eq u.meta meta

abbrev pub rune_at : UtxoMeta → Option UtxoInfo → Bool
rune_at meta none = false
rune_at meta (some u) = is_at meta u

any-keep :
    (p q : UtxoInfo → Bool) (xs : List UtxoInfo) → any p xs ≡ false → any p (keep q xs) ≡ false
any-keep p q [] h = refl
any-keep p q (x ∷ xs) h = ground (arith, any-keep p q xs)

any-keep-not : (p : UtxoInfo → Bool) (xs : List UtxoInfo) → any p (keep (λ u. not (p u)) xs) ≡ false
any-keep-not p [] = refl
any-keep-not p (x ∷ xs) = ground (arith, any-keep-not p xs)

get_elem?-set :
    {A : Type 0} (xs : List A) (i j : ℕ) (b a : A)
    → get_elem? (set xs i b) j ≡ some a
    → ((i ≡ j) × (a ≡ b)) ⊎ (get_elem? xs j ≡ some a)
get_elem?-set [] i j b a h = inr h
get_elem?-set (x ∷ xs) zero zero b a h = inl (refl, cc)
get_elem?-set (x ∷ xs) zero (suc j) b a h = inr h
get_elem?-set (x ∷ xs) (suc i) zero b a h = inr h
get_elem?-set (x ∷ xs) (suc i) (suc j) b a h = elim (get_elem?-set xs i j b a h) [
  | inl (e, same) ↦ inl (ap suc e, same)
  | inr there ↦ inr there
]

get_elem?-set_same :
    {A : Type 0} (xs : List A) (i : ℕ) (b a : A) → get_elem? (set xs i b) i ≡ some a → a ≡ b
get_elem?-set_same [] i b a h = cc
get_elem?-set_same (x ∷ xs) zero b a h = cc
get_elem?-set_same (x ∷ xs) (suc i) b a h = get_elem?-set_same xs i b a h

some_injective : {A : Type 0} {a b : A} → some a ≡ some b → a ≡ b
some_injective h = cc

module _ {S : Type 0} (t : StateShard S) where
  -- The shard has no UTXO at the outpoint.
  abbrev pub Free : UtxoMeta → S → Type 0
  Free meta s = (any (is_at meta) (t.btc_utxos s) ≡ false) × (rune_at meta (t.rune_utxo s) ≡ false)

  -- The shard of a selected account, where it has one, has no UTXO at the outpoint.
  abbrev pub Cleared : ShardSet S → UtxoMeta → ℕ → Type 0
  Cleared shards meta idx = elim (get_elem? shards.loaders idx) [
    | none ↦ Unit
    | some l ↦ elim l.shard [ none ↦ Unit | some s ↦ Free meta s ]
  ]

  abbrev pub FreeAt : UtxoMeta → ShardSet S → ℕ → Type 0
  FreeAt meta shards idx =
      (l : Loader S) (s : S)
      → get_elem? shards.loaders idx ≡ some l
      → l.shard ≡ some s
      → Free meta s

module _ {S : Type 0} (t : StateShard S) (IsValid : S → Type 0) (laws : Laws t IsValid) where
  abbrev pub kept : UtxoMeta → S → S
  kept meta s = t.btc_utxos_retain (λ u. not (outpoint_eq u.meta meta)) s

  pub without_cases :
      (meta : UtxoMeta) (s : S)
      → ((without t meta s ≡ kept meta s) × (rune_at meta (t.rune_utxo (kept meta s)) ≡ false))
        ⊎ (without t meta s ≡ t.clear_rune_utxo (kept meta s))
  without_cases meta s = elim (Option-cases (t.rune_utxo (kept meta s))) [
    | inl e ↦ inl (rw (e, without) refl, rw e refl)
    | inr (u, e) ↦ elim (Bool-cases (outpoint_eq u.meta meta)) [
      | inl here ↦ inr (rw (e, here, without) refl)
      | inr there ↦ inl (rw (e, there, without) refl, rw e there)
    ]
  ]

  kept-btc :
      (meta : UtxoMeta) (s : S)
      → IsValid s
      → t.btc_utxos (without t meta s) ≡ keep (λ u. not (outpoint_eq u.meta meta)) (t.btc_utxos s)
  kept-btc meta s v = elim (without_cases meta s) [
    | inl (e, _) ↦ ap t.btc_utxos e ∙ laws.retained (λ u. not (outpoint_eq u.meta meta)) s v
    | inr e ↦
        ap t.btc_utxos e
        ∙ laws.clear_btc (kept meta s)
        ∙ laws.retained (λ u. not (outpoint_eq u.meta meta)) s v
  ]

  pub without-IsValid : (meta : UtxoMeta) (s : S) → IsValid s → IsValid (without t meta s)
  without-IsValid meta s v =
      let valid = laws.retain-IsValid (λ u. not (outpoint_eq u.meta meta)) s v in
      elim (without_cases meta s) [
        | inl (e, _) ↦ subst IsValid (sym e) valid
        | inr e ↦ subst IsValid (sym e) (laws.clear-IsValid (kept meta s) valid)
      ]

  without-Free : (meta : UtxoMeta) (s : S) → IsValid s → Free t meta (without t meta s)
  without-Free meta s v = (
    ap (any (is_at meta)) (kept-btc meta s v) ∙ any-keep-not (is_at meta) (t.btc_utxos s),
    elim (without_cases meta s) [
      | inl (e, none_there) ↦ ap (λ k. rune_at meta (t.rune_utxo k)) e ∙ none_there
      | inr e ↦
          ap (λ k. rune_at meta (t.rune_utxo k)) e ∙ ap (rune_at meta) (laws.cleared (kept meta s))
    ],
  )

  without-keeps :
      (meta other : UtxoMeta) (s : S) → IsValid s → Free t other s → Free t other (without t meta s)
  without-keeps meta other s v h = (
    ap (any (is_at other)) (kept-btc meta s v)
        ∙ any-keep (is_at other) (λ u. not (outpoint_eq u.meta meta)) (t.btc_utxos s) h.0,
    elim (without_cases meta s) [
      | inl (e, _) ↦
          ap (λ k. rune_at other (t.rune_utxo k)) e
          ∙ ap (rune_at other) (laws.retain_rune (λ u. not (outpoint_eq u.meta meta)) s)
          ∙ h.1
      | inr e ↦
          ap (λ k. rune_at other (t.rune_utxo k)) e
          ∙ ap (rune_at other) (laws.cleared (kept meta s))
    ],
  )

  abbrev pub once : ℕ → UtxoMeta → M (ShardSet S) StateShardError (Unit {0})
  once idx meta =
      map_err_m (λ _. rune_amount_addition_overflow)
        (with_mut idx (λ shard. (tt, without t meta shard)))

  -- A step that succeeds rewrites the loader, which has a shard.
  pub once_lem :
      (idx : ℕ) (meta : UtxoMeta) (shards : ShardSet S) (u : Unit {0})
      → AllSound IsValid shards
      → (once idx meta shards).0 ≡ ok u
      → (l : Loader S) × (s : S) × (get_elem? shards.loaders idx ≡ some l)
        × (l.shard ≡ some s)
        × IsValid s
        × ((once idx meta shards).1.loaders
            ≡ set shards.loaders idx (record l { shard = some (without t meta s) }))
  once_lem idx meta shards u sound h =
      let f : S → Unit {0} × S = λ shard. (tt, without t meta shard) in
      let (l, s, at, full, _, loaders) =
        with_mut-ok idx f shards u
          (map_err-ok (λ _. rune_amount_addition_overflow) (with_mut idx f shards).0 u h) in
      (l, s, at, full, Sound-IsValid IsValid shards idx l s sound at full, loaders)

  pub once-AllSound :
      (idx : ℕ) (meta : UtxoMeta) (shards : ShardSet S) (u : Unit {0})
      → AllSound IsValid shards
      → (once idx meta shards).0 ≡ ok u
      → AllSound IsValid (once idx meta shards).1
  once-AllSound idx meta shards u sound h =
      let (l, s, at, full, v, loaders) = once_lem idx meta shards u sound h in
      subst (All (Sound IsValid)) (sym loaders) (
        All-set (Sound IsValid) shards.loaders idx (record l { shard = some (without t meta s) })
          sound (without-IsValid meta s v))

  pub once-FreeAt :
      (idx : ℕ) (meta : UtxoMeta) (shards : ShardSet S) (u : Unit {0})
      → AllSound IsValid shards
      → (once idx meta shards).0 ≡ ok u
      → FreeAt t meta (once idx meta shards).1 idx
  once-FreeAt idx meta shards u sound h l' s' at' full' =
      let (l, s, at, full, v, loaders) = once_lem idx meta shards u sound h in
      let same =
        get_elem?-set_same shards.loaders idx (record l { shard = some (without t meta s) }) l'
          (ap (λ k. get_elem? k idx) (sym loaders) ∙ at') in
      let shard : some s' ≡ some (without t meta s) = sym full' ∙ ap (λ k. k.shard) same in
      subst (Free t meta) (sym (some_injective shard)) (without-Free meta s v)

  pub once-keeps :
      (idx : ℕ) (meta : UtxoMeta) (shards : ShardSet S) (u : Unit {0}) (other : UtxoMeta) (j : ℕ)
      → AllSound IsValid shards
      → (once idx meta shards).0 ≡ ok u
      → FreeAt t other shards j
      → FreeAt t other (once idx meta shards).1 j
  once-keeps idx meta shards u other j sound h free l' s' at' full' =
      let (l, s, at, full, v, loaders) = once_lem idx meta shards u sound h in
      elim (get_elem?-set shards.loaders idx j (record l { shard = some (without t meta s) }) l'
        (ap (λ k. get_elem? k j) (sym loaders) ∙ at')) [
          | inl (e, same) ↦
              let shard : some s' ≡ some (without t meta s) = sym full' ∙ ap (λ k. k.shard) same in
              subst (Free t other) (sym (some_injective shard)) (
                without-keeps meta other s v
                  (free l s (ap (get_elem? shards.loaders) (sym e) ∙ at) full))
          | inr there ↦ free l' s' there full'
        ]
