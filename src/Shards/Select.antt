-- ===== src/Shards/Select.antt =====
-- The type-state of a ShardSet of saturn-account-shards/src/shard_set.rs: the selection of shards
-- (shard_indices.rs), and what runs on the selected ones.
--
-- `max` is the const parameter `MAX_SELECTED_SHARDS`. The debug assertions are off, as in a release build.
pub mod Each
use saturn_crates.Prelude.{
  ℕ, ◌≡◌, List, [], ◌∷◌, Result, ok, err, panicked, length, try_, replicate, ◌==◌, Bool,
}
use saturn_crates.Prelude.Exec.{M, ◌>>=◌, ◌>>◌, return, lift, get}
use saturn_crates.Collections.FixedList
use saturn_crates.Collections.FixedList.{FixedList, FixedListError}
use saturn_crates.Shards.Set.{ShardSet, Loader, AccountError, with_ref, with_mut}

-- A ShardSet in the state Unselected.
pub record Unselected (S : Type 0) : Type 0 where
  pub loaders : List (Loader S)
  pub selected : FixedList ℕ

-- the types that implement IntoShardIndices
pub data ShardIndices : Type 0 where
  index : ℕ → ShardIndices
  -- a slice, a vector, an array or a FixedList of another capacity
  slice : List ℕ → ShardIndices
  fixed_list : FixedList ℕ → ShardIndices

abbrev pub no_failure : {A : Type 0} → Result ⊥ A → Result FixedListError A
no_failure (ok a) = ok a
no_failure (err e) = absurd e
no_failure panicked = panicked

unfoldable pub into_indices : ℕ → ShardIndices → Result FixedListError (FixedList ℕ)
unfolding FixedList.new FixedList.push FixedList.from_slice
into_indices max (index i) =
    let (r, list) = FixedList.push max (FixedList.new max 0) i in try_ r λ _. ok list
into_indices max (slice s) = no_failure (FixedList.from_slice max 0 s)
into_indices max (fixed_list l) = ok l

-- the loop of `select_with`
unfoldable pub push_each : ℕ → List ℕ → M (FixedList ℕ) FixedListError (Unit {0})
unfolding FixedList.push
push_each max [] = return tt
push_each max (idx ∷ rest) = do (λ l. FixedList.push max l idx); push_each max rest

module _ {S : Type 0} where
  unfoldable pub from_loaders : ℕ → List (Loader S) → Unselected S
  unfolding FixedList.new
  from_loaders max loaders = record { loaders = loaders; selected = FixedList.new max 0 }

  abbrev pub len : Unselected S → ℕ
  len shards = length shards.loaders

  abbrev pub is_empty : Unselected S → Bool
  is_empty shards = len shards == 0

  unfoldable pub select_with : ℕ → Unselected S → ShardIndices → Result FixedListError (ShardSet S)
  unfolding into_indices push_each
  select_with max shards spec = try_ (into_indices max spec) λ indexes.
      let (r, selected) = push_each max (FixedList.as_slice indexes) shards.selected in
      try_ r λ _. ok (record { loaders = shards.loaders; selected = FixedList.as_slice selected })

  abbrev pub selected_indices : ShardSet S → List ℕ
  selected_indices shards = shards.selected

module _ {S R : Type 0} where
  -- the loop of `for_each`
  unfoldable pub ref_each : ShardSet S → (S → R) → List ℕ → Result AccountError (List R)
  unfolding with_ref
  ref_each shards f [] = ok []
  ref_each shards f (idx ∷ rest) =
      let later = ref_each shards f rest in
      try_ (with_ref shards idx f) λ out. try_ later λ results. ok (out ∷ results)

  unfoldable pub for_each : (S → R) → ShardSet S → Result AccountError (List R)
  unfolding ref_each
  for_each f shards = ref_each shards f shards.selected

  -- the loop of `for_each_mut`
  unfoldable pub mut_each : (S → R × S) → List ℕ → M (ShardSet S) AccountError (List R)
  unfolding with_mut
  mut_each f [] = return []
  mut_each f (idx ∷ rest) = do
    out ← with_mut idx f
    results ← mut_each f rest
    return (out ∷ results)

  unfoldable pub for_each_mut : (S → R × S) → M (ShardSet S) AccountError (List R)
  unfolding mut_each
  for_each_mut f shards = mut_each f shards.selected shards
