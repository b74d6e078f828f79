-- ===== src/Shards/Update/Best.antt =====
-- The shard that a new UTXO enters.
use saturn_crates.Prelude.{
  ℕ, ◌-◌, ◌%◌, ◌≤◌, ◌<◌, ◌≡◌, refl, ◌∙◌, List, [], ◌∷◌, Bool, true, false, ◌&&◌, Option,
  Option-cases, none, some, ok, ltb, if◌then◌else◌, arith, All, get_elem?, get_elem?-lt, length,
  Bool-cases, inl, inr, ◌⊎◌,
}
use saturn_crates.Prelude.Sort.{sum_by}
use saturn_crates.Prelude.Members.{member}
use saturn_crates.SafeMath.{u64_mod}
use saturn_crates.Shards.Set.{Loader, load, StateShard, ShardSet, with_ref}
use saturn_crates.Shards.Update.{best_from, select_best_shard_to_add_btc_to}

not_better : (room : Bool) (x limit : ℕ) → room && ltb x limit ≡ false → room ≡ true → limit ≤ x
not_better room x limit h e = ground arith

module _ {S : Type 0} (t : StateShard S) (shards : ShardSet S) where
  -- what a shard offers: whether it can be read and has room, and the sum of its UTXOs
  abbrev pub offer : ℕ → Bool × ℕ
  offer idx = elim (get_elem? shards.loaders idx) [
    | none ↦ (false, 0)
    | some l ↦ elim l.shard [
      | none ↦ (false, 0)
      | some s ↦ (
        ltb (t.btc_utxos_len s) (t.btc_utxos_max_len s),
        sum_by (λ u. u.value) (t.btc_utxos s) % u64_mod,
      )
    ]
  ]

  -- No shard offers room at a sum below the limit.
  abbrev pub Above : ℕ → List ℕ → Type 0
  Above limit = All (λ idx. (offer idx).0 ≡ true → limit ≤ (offer idx).1)

  -- The result of the loop: the best so far, where nothing is below its sum; or one of the shards, which
  -- offers room at a smaller sum, where nothing is below that.
  abbrev pub Found : List ℕ → Option ℕ → ℕ → Option ℕ → Type 0
  Found idxs best smallest r =
      ((r ≡ best) × Above smallest idxs)
      ⊎ ((idx : ℕ) × (r ≡ some idx)
          × (member idxs idx ≡ true)
          × ((offer idx).0 ≡ true)
          × ((offer idx).1 < smallest)
          × Above (offer idx).1 idxs)

  step :
      (idx : ℕ) (rest : List ℕ) (best : Option ℕ) (smallest : ℕ)
      → idx < length shards.loaders
      → best_from t shards (idx ∷ rest) best smallest ≡ (
          if (offer idx).0 && ltb (offer idx).1 smallest
          then best_from t shards rest (some idx) (offer idx).1
          else best_from t shards rest best smallest)
  unfolding best_from with_ref load
  step idx rest best smallest h = let (l, at) = get_elem?-lt shards.loaders idx h in go l at
    where
      go :
          (l : Loader S)
          → get_elem? shards.loaders idx ≡ some l
          → best_from t shards (idx ∷ rest) best smallest ≡ (
              if (offer idx).0 && ltb (offer idx).1 smallest
              then best_from t shards rest (some idx) (offer idx).1
              else best_from t shards rest best smallest)
      go l at = elim (Option-cases l.shard) [ inl e ↦ ground arith | inr (s, e) ↦ ground arith ]

  best_from-Found :
      (idxs : List ℕ) (best : Option ℕ) (smallest : ℕ)
      → All (λ idx. idx < length shards.loaders) idxs
      → (r : Option ℕ) × (best_from t shards idxs best smallest ≡ ok r) × Found idxs best smallest r
  unfolding best_from
  best_from-Found [] best smallest a = (best, refl, inl (refl, tt))
  best_from-Found (idx ∷ rest) best smallest a =
      let here = step idx rest best smallest a.0 in
      elim (Bool-cases ((offer idx).0 && ltb (offer idx).1 smallest)) [
        | inl better ↦
            let (r, run, found) = best_from-Found rest (some idx) (offer idx).1 a.1 in
            (r, here ∙ rw better run, improved found better)
        | inr worse ↦
            let (r, run, found) = best_from-Found rest best smallest a.1 in
            (r, here ∙ rw worse run, kept found worse)
      ]
    where
      improved :
          {r : Option ℕ}
          → Found rest (some idx) (offer idx).1 r
          → (offer idx).0 && ltb (offer idx).1 smallest ≡ true
          → Found (idx ∷ rest) best smallest r
      improved (inl (same, above)) h =
          inr (idx, same, ground arith, ground arith, ground arith, ((λ _. omega arith), above))
      improved (inr (j, same, there, room, less, above)) h =
          inr (
            j,
            same,
            ground (arith, there),
            room,
            ground arith,
            ((λ _. omega (arith, less)), above),
          )

      kept :
          {r : Option ℕ}
          → Found rest best smallest r
          → (offer idx).0 && ltb (offer idx).1 smallest ≡ false
          → Found (idx ∷ rest) best smallest r
      kept (inl (same, above)) h =
          inl (same, (not_better (offer idx).0 (offer idx).1 smallest h, above))
      kept (inr (j, same, there, room, less, above)) h = inr (
        j,
        same,
        ground (arith, there),
        room,
        less,
        ((λ e. omega (arith, less, not_better (offer idx).0 (offer idx).1 smallest h e)), above),
      )

  -- The call gives one of the given shards that can be read and has room, whose UTXOs sum up to less than
  -- 2^64 - 1 and to no more than those of any other such shard that is given; or nothing, where no given
  -- shard has that. (All are in range.)
  pub select_best_shard_to_add_btc_to-Found :
      (idxs : List ℕ)
      → All (λ idx. idx < length shards.loaders) idxs
      → (r : Option ℕ) × (select_best_shard_to_add_btc_to t shards idxs ≡ ok r)
        × Found idxs none (u64_mod - 1) r
  unfolding select_best_shard_to_add_btc_to
  select_best_shard_to_add_btc_to-Found idxs a = best_from-Found idxs none (u64_mod - 1) a
