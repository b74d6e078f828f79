-- ===== src/Shards/Update/Spent.antt =====
-- What `remove_utxos_from_shards` of saturn-account-shards/src/update.rs leaves in the shards.
use saturn_crates.Prelude.{
  ℕ, ◌≡◌, sym, ap, ◌∙◌, List, [], ◌∷◌, ok, All, All-imp, get_elem?, Option-cases, inl, inr,
}
use mathlib.Core.Path.{subst}
use saturn_crates.Prelude.Exec.{continue-ok}
use saturn_crates.Transactions.Chain.{UtxoMeta}
use saturn_crates.Shards.Set.{StateShard, ShardSet}
use saturn_crates.Shards.Set.Laws.{Laws, AllSound}
use saturn_crates.Shards.Update.{remove_utxo, remove_utxos_from_shards}
use saturn_crates.Shards.Update.Without.{
  Cleared, FreeAt, once, once-AllSound, once-FreeAt, once-keeps,
}

module _ {S : Type 0} (t : StateShard S) (IsValid : S → Type 0) (laws : Laws t IsValid) where
  remove_utxo-AllSound :
      (meta : UtxoMeta) (idxs : List ℕ) (shards : ShardSet S)
      → AllSound IsValid shards
      → (remove_utxo t meta idxs shards).0 ≡ ok tt
      → AllSound IsValid (remove_utxo t meta idxs shards).1
  unfolding remove_utxo
  remove_utxo-AllSound meta [] shards sound h = sound
  remove_utxo-AllSound meta (idx ∷ rest) shards sound h =
      let (u, done, next) =
        continue-ok (once t IsValid laws idx meta shards).0 (λ _. remove_utxo t meta rest)
          (once t IsValid laws idx meta shards).1 tt h in
      subst (λ k. AllSound IsValid k.1) (sym next)
        (remove_utxo-AllSound meta rest (once t IsValid laws idx meta shards).1
          (once-AllSound t IsValid laws idx meta shards u sound done)
          (sym (ap (λ k. k.0) next) ∙ h))

  remove_utxo-keeps :
      (meta : UtxoMeta) (idxs : List ℕ) (shards : ShardSet S) (other : UtxoMeta) (j : ℕ)
      → AllSound IsValid shards
      → (remove_utxo t meta idxs shards).0 ≡ ok tt
      → FreeAt t other shards j
      → FreeAt t other (remove_utxo t meta idxs shards).1 j
  unfolding remove_utxo
  remove_utxo-keeps meta [] shards other j sound h free = free
  remove_utxo-keeps meta (idx ∷ rest) shards other j sound h free =
      let (u, done, next) =
        continue-ok (once t IsValid laws idx meta shards).0 (λ _. remove_utxo t meta rest)
          (once t IsValid laws idx meta shards).1 tt h in
      subst (λ k. FreeAt t other k.1 j) (sym next)
        (remove_utxo-keeps meta rest (once t IsValid laws idx meta shards).1 other j
          (once-AllSound t IsValid laws idx meta shards u sound done) (sym (ap (λ k. k.0) next) ∙ h)
          (once-keeps t IsValid laws idx meta shards u other j sound done free))

  remove_utxo-Free :
      (meta : UtxoMeta) (idxs : List ℕ) (shards : ShardSet S)
      → AllSound IsValid shards
      → (remove_utxo t meta idxs shards).0 ≡ ok tt
      → All (FreeAt t meta (remove_utxo t meta idxs shards).1) idxs
  unfolding remove_utxo
  remove_utxo-Free meta [] shards sound h = tt
  remove_utxo-Free meta (idx ∷ rest) shards sound h =
      let (u, done, next) =
        continue-ok (once t IsValid laws idx meta shards).0 (λ _. remove_utxo t meta rest)
          (once t IsValid laws idx meta shards).1 tt h in
      let later = sym (ap (λ k. k.0) next) ∙ h in
      subst (λ k. All (FreeAt t meta k.1) (idx ∷ rest)) (sym next)
        (
          remove_utxo-keeps meta rest (once t IsValid laws idx meta shards).1 meta idx
              (once-AllSound t IsValid laws idx meta shards u sound done) later
              (once-FreeAt t IsValid laws idx meta shards u sound done),
          remove_utxo-Free meta rest (once t IsValid laws idx meta shards).1
              (once-AllSound t IsValid laws idx meta shards u sound done) later,
        )

  pub remove_utxos-AllSound :
      (idxs : List ℕ) (metas : List UtxoMeta) (shards : ShardSet S)
      → AllSound IsValid shards
      → (remove_utxos_from_shards t idxs metas shards).0 ≡ ok tt
      → AllSound IsValid (remove_utxos_from_shards t idxs metas shards).1
  unfolding remove_utxos_from_shards
  remove_utxos-AllSound idxs [] shards sound h = sound
  remove_utxos-AllSound idxs (meta ∷ rest) shards sound h =
      let (u, done, next) =
        continue-ok (remove_utxo t meta idxs shards).0 (λ _. remove_utxos_from_shards t idxs rest)
          (remove_utxo t meta idxs shards).1 tt h in
      subst (λ k. AllSound IsValid k.1) (sym next)
        (remove_utxos-AllSound idxs rest (remove_utxo t meta idxs shards).1
          (remove_utxo-AllSound meta idxs shards sound done) (sym (ap (λ k. k.0) next) ∙ h))

  remove_utxos-keeps :
      (idxs : List ℕ) (metas : List UtxoMeta) (shards : ShardSet S) (other : UtxoMeta) (j : ℕ)
      → AllSound IsValid shards
      → (remove_utxos_from_shards t idxs metas shards).0 ≡ ok tt
      → FreeAt t other shards j
      → FreeAt t other (remove_utxos_from_shards t idxs metas shards).1 j
  unfolding remove_utxos_from_shards
  remove_utxos-keeps idxs [] shards other j sound h free = free
  remove_utxos-keeps idxs (meta ∷ rest) shards other j sound h free =
      let (u, done, next) =
        continue-ok (remove_utxo t meta idxs shards).0 (λ _. remove_utxos_from_shards t idxs rest)
          (remove_utxo t meta idxs shards).1 tt h in
      subst (λ k. FreeAt t other k.1 j) (sym next)
        (remove_utxos-keeps idxs rest (remove_utxo t meta idxs shards).1 other j
          (remove_utxo-AllSound meta idxs shards sound (done)) (sym (ap (λ k. k.0) next) ∙ h)
          (remove_utxo-keeps meta idxs shards other j sound done free))

  FreeAt-Cleared :
      (meta : UtxoMeta) (shards : ShardSet S) (idx : ℕ)
      → FreeAt t meta shards idx
      → Cleared t shards meta idx
  FreeAt-Cleared meta shards idx free = elim (Option-cases (get_elem? shards.loaders idx)) [
    | inl missing ↦ rw (missing, Cleared) tt
    | inr (l, at) ↦ elim (Option-cases l.shard) [
      | inl empty ↦ rw (at, empty, Cleared) tt
      | inr (s, full) ↦ rw (at, full, Cleared) (free l s at full)
    ]
  ]

  -- Where the call succeeds, no shard that it was given has a UTXO at any of the outpoints, neither
  -- among its satoshi UTXOs nor as its rune UTXO. (The implementation of StateShard meets its contract,
  -- and the shards are valid.)
  pub remove_utxos_from_shards-Cleared :
      (idxs : List ℕ) (metas : List UtxoMeta) (shards : ShardSet S)
      → AllSound IsValid shards
      → (remove_utxos_from_shards t idxs metas shards).0 ≡ ok tt
      → All
          (λ meta. All (Cleared t (remove_utxos_from_shards t idxs metas shards).1 meta) idxs)
          metas
  unfolding remove_utxos_from_shards
  remove_utxos_from_shards-Cleared idxs [] shards sound h = tt
  remove_utxos_from_shards-Cleared idxs (meta ∷ rest) shards sound h =
      let (u, done, next) =
        continue-ok (remove_utxo t meta idxs shards).0 (λ _. remove_utxos_from_shards t idxs rest)
          (remove_utxo t meta idxs shards).1 tt h in
      let later = sym (ap (λ k. k.0) next) ∙ h in
      subst (λ k. All (λ m. All (Cleared t k.1 m) idxs) (meta ∷ rest)) (sym next)
        (
          All-imp {P = FreeAt t meta (remove_utxo t meta idxs shards).1}
              {Q = Cleared t
                (remove_utxos_from_shards t idxs rest (remove_utxo t meta idxs shards).1).1 meta}
              (λ j free.
                FreeAt-Cleared meta
                  (remove_utxos_from_shards t idxs rest (remove_utxo t meta idxs shards).1).1 j
                  (remove_utxos-keeps idxs rest (remove_utxo t meta idxs shards).1 meta j
                    (remove_utxo-AllSound meta idxs shards sound (done)) later free))
              idxs (remove_utxo-Free meta idxs shards sound done),
          remove_utxos_from_shards-Cleared idxs rest (remove_utxo t meta idxs shards).1
              (remove_utxo-AllSound meta idxs shards sound (done)) later,
        )
