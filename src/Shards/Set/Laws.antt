-- ===== src/Shards/Set/Laws.antt =====
-- The contract of the trait StateShard of saturn-account-shards/src/shard.rs, as its comments and its
-- method names state it, and what holds of a set of shards that meet it.
use saturn_crates.Prelude.{
  ℕ, zero, suc, ◌≡◌, ◌<◌, ◌≤◌, List, [], ◌∷◌, ◌++◌, Bool, none, some, length, get_elem?, set, keep,
  All, ◌⊎◌,
}
use mathlib.Core.Path.{subst}
use saturn_crates.Transactions.Builder.State.{UtxoInfo}
use saturn_crates.Shards.Set.{StateShard, ShardSet, Loader}

-- `IsValid` holds of the shards that the methods make.
pub record Laws {S : Type 0} (t : StateShard S) (IsValid : S → Type 0) : Type 0 where
  pub retain-IsValid : (p : UtxoInfo → Bool) (s : S) → IsValid s → IsValid (t.btc_utxos_retain p s)
  pub add-IsValid : (u : UtxoInfo) (s : S) → IsValid s → IsValid (t.add_btc_utxo u s).1
  pub clear-IsValid : (s : S) → IsValid s → IsValid (t.clear_rune_utxo s)
  pub set-IsValid : (u : UtxoInfo) (s : S) → IsValid s → IsValid (t.set_rune_utxo u s)
  pub counted : (s : S) → IsValid s → t.btc_utxos_len s ≡ length (t.btc_utxos s)
  pub bounded : (s : S) → IsValid s → t.btc_utxos_len s ≤ t.btc_utxos_max_len s
  pub retained :
      (p : UtxoInfo → Bool) (s : S)
      → IsValid s
      → t.btc_utxos (t.btc_utxos_retain p s) ≡ keep p (t.btc_utxos s)
  -- An addition appends, or fails and changes nothing, where there is no room.
  pub added :
      (u : UtxoInfo) (s : S)
      → IsValid s
      → ((t.btc_utxos_len s < t.btc_utxos_max_len s)
          × ((t.add_btc_utxo u s).0 ≡ some (t.btc_utxos_len s))
          × (t.btc_utxos (t.add_btc_utxo u s).1 ≡ t.btc_utxos s ++ (u ∷ [])))
        ⊎ ((t.btc_utxos_len s ≡ t.btc_utxos_max_len s) × (t.add_btc_utxo u s ≡ (none, s)))
  pub set_rune : (u : UtxoInfo) (s : S) → t.rune_utxo (t.set_rune_utxo u s) ≡ some u
  pub cleared : (s : S) → t.rune_utxo (t.clear_rune_utxo s) ≡ none
  -- The two kinds of UTXOs are kept apart.
  pub retain_rune :
      (p : UtxoInfo → Bool) (s : S) → t.rune_utxo (t.btc_utxos_retain p s) ≡ t.rune_utxo s
  pub add_rune : (u : UtxoInfo) (s : S) → t.rune_utxo (t.add_btc_utxo u s).1 ≡ t.rune_utxo s
  pub clear_btc : (s : S) → t.btc_utxos (t.clear_rune_utxo s) ≡ t.btc_utxos s
  pub set_btc : (u : UtxoInfo) (s : S) → t.btc_utxos (t.set_rune_utxo u s) ≡ t.btc_utxos s

module _ {A : Type 0} where
  pub All-get :
      (P : A → Type 0) (xs : List A) (i : ℕ) (x : A) → All P xs → get_elem? xs i ≡ some x → P x
  All-get P [] i x a h = cc
  All-get P (y ∷ xs) zero x a h = let e : y ≡ x = cc in subst P e a.0
  All-get P (y ∷ xs) (suc i) x a h = All-get P xs i x a.1 h

  pub All-set : (P : A → Type 0) (xs : List A) (i : ℕ) (x : A) → All P xs → P x → All P (set xs i x)
  All-set P [] i x a p = tt
  All-set P (y ∷ xs) zero x a p = (p, a.1)
  All-set P (y ∷ xs) (suc i) x a p = (a.0, All-set P xs i x a.1 p)

module _ {S : Type 0} (IsValid : S → Type 0) where
  -- The account has no shard, or one that is valid.
  abbrev pub Sound : Loader S → Type 0
  Sound l = elim l.shard [ none ↦ Unit | some s ↦ IsValid s ]

  -- Every account is sound.
  abbrev pub AllSound : ShardSet S → Type 0
  AllSound shards = All Sound shards.loaders
