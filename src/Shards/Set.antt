-- ===== src/Shards/Set.antt =====
-- The shards of saturn-account-shards (shard.rs, shard_handle.rs and shard_set.rs).
--
-- A loader stands for an account: its shard, or nothing, where the account cannot be borrowed or holds
-- no shard, and whether the transaction may write it. `load` and `load_mut`
-- (saturn-account-parser/src/codec/zero_copy.rs) fail on the first, and `load_mut` on the second too.
pub mod Laws
pub mod Access
use saturn_crates.Prelude.{
  ℕ, List, Bool, Option, none, some, Result, ok, err, panicked, get_elem?, set, if◌then◌else◌, try_,
}
use saturn_crates.Prelude.Exec.{M}
use saturn_crates.Transactions.Builder.State.{UtxoInfo}

-- the trait StateShard: the methods that the crate calls
pub record StateShard (S : Type 0) : Type 0 where
  pub btc_utxos : S → List UtxoInfo
  pub btc_utxos_retain : (UtxoInfo → Bool) → S → S
  pub add_btc_utxo : UtxoInfo → S → Option ℕ × S
  pub btc_utxos_len : S → ℕ
  pub btc_utxos_max_len : S → ℕ
  pub rune_utxo : S → Option UtxoInfo
  pub clear_rune_utxo : S → S
  pub set_rune_utxo : UtxoInfo → S → S

-- `ProgramError` of an account that cannot be read or written
pub data AccountError : Type 0 where
  unavailable : AccountError
  incorrect_is_writable_flag : AccountError

-- AccountLoader
pub record Loader (S : Type 0) : Type 0 where
  pub shard : Option S
  pub is_writable : Bool

-- A ShardSet in the state Selected; `selected` is the slice of its FixedList.
pub record ShardSet (S : Type 0) : Type 0 where
  pub loaders : List (Loader S)
  pub selected : List ℕ

module _ {S : Type 0} where
  unfoldable pub load : Loader S → Result AccountError S
  load l = elim l.shard [ none ↦ err unavailable | some s ↦ ok s ]

  unfoldable pub load_mut : Loader S → Result AccountError S
  load_mut l = if l.is_writable then load l else err incorrect_is_writable_flag

module _ {S A : Type 0} where
  -- `handle_by_index(idx).with_ref(f)`
  unfoldable pub with_ref : ShardSet S → ℕ → (S → A) → Result AccountError A
  unfolding load
  with_ref set idx f = elim (get_elem? set.loaders idx) [
    | none ↦ panicked
    | some l ↦ try_ (load l) λ s. ok (f s)
  ]

  -- The shard is changed in the account's data.
  unfoldable pub write : ℕ → Loader S → (S → A × S) → M (ShardSet S) AccountError A
  unfolding load load_mut
  write idx l f shards = elim (load_mut l) [
    | ok s ↦
        let (a, s') = f s in
        (ok a, record shards { loaders = set shards.loaders idx (record l { shard = some s' }) })
    | err e ↦ (err e, shards)
    | panicked ↦ (panicked, shards)
  ]

  -- `handle_by_index(idx).with_mut(f)`
  unfoldable pub with_mut : ℕ → (S → A × S) → M (ShardSet S) AccountError A
  unfolding write
  with_mut idx f shards = elim (get_elem? shards.loaders idx) [
    | none ↦ (panicked, shards)
    | some l ↦ write idx l f shards
  ]
