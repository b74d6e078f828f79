-- ===== src/Shards/Derived/Meets.antt =====
-- The derived implementation against the contract of StateShard.
use saturn_crates.Prelude.{
  ℕ, ◌≡◌, ◌<◌, refl, sym, ap, ◌∙◌, List, [], ◌∷◌, ◌++◌, ◌⊎◌, some, none, length, keep, arith, inl,
  inr,
}
use mathlib.Core.Path.{subst}
use saturn_crates.Collections.FixedArray
use saturn_crates.Collections.FixedArray.{FixedArray, u16_mod}
use saturn_crates.Collections.FixedArray.Stands.{Stands, as_slice-Stands}
use saturn_crates.Collections.FixedArray.Refines.{add-Stands, retain-Stands}
use saturn_crates.Collections.FixedOption
use saturn_crates.Transactions.Builder.State.{UtxoInfo}
use saturn_crates.Shards.Set.Laws.{Laws}
use saturn_crates.Shards.Derived.{AccountUtxos, state_shard}

module _ (size : ℕ) (default zeroed : UtxoInfo) where
  -- A shard whose array stands for some list.
  abbrev pub Holds : AccountUtxos → Type 0
  Holds s = (xs : List UtxoInfo) × Stands size default s.btc_utxos xs

  added_cases :
      (u : UtxoInfo) (s : AccountUtxos) (xs : List UtxoInfo)
      → Stands size default s.btc_utxos xs
      → ((s.btc_utxos.count < size)
          × ((FixedArray.add size s.btc_utxos u).0 ≡ some s.btc_utxos.count)
          × Stands size default (FixedArray.add size s.btc_utxos u).1 (xs ++ (u ∷ [])))
        ⊎ ((s.btc_utxos.count ≡ size) × (FixedArray.add size s.btc_utxos u ≡ (none, s.btc_utxos)))
  added_cases u s xs v = elim (add-Stands size default s.btc_utxos xs u v) [
    | inl (less, r, w) ↦ inl (omega (arith, less, v.counted), r ∙ ap some (sym v.counted), w)
    | inr (full, same) ↦ inr (v.counted ∙ full, same)
  ]

  add-Holds :
      (u : UtxoInfo) (s : AccountUtxos) (xs : List UtxoInfo)
      → Stands size default s.btc_utxos xs
      → Holds ((state_shard size default zeroed).add_btc_utxo u s).1
  unfolding state_shard
  add-Holds u s xs v = elim (added_cases u s xs v) [
    | inl (_, _, w) ↦ (xs ++ (u ∷ []), w)
    | inr (_, same) ↦ (xs, subst (λ k. Stands size default k.1 xs) (sym same) v)
  ]

  added_lem :
      (u : UtxoInfo) (s : AccountUtxos) (xs : List UtxoInfo)
      → Stands size default s.btc_utxos xs
      → ((s.btc_utxos.count < size)
          × (((state_shard size default zeroed).add_btc_utxo u s).0 ≡ some s.btc_utxos.count)
          × (FixedArray.as_slice (FixedArray.add size s.btc_utxos u).1
              ≡ FixedArray.as_slice s.btc_utxos ++ (u ∷ [])))
        ⊎ ((s.btc_utxos.count ≡ size)
            × ((state_shard size default zeroed).add_btc_utxo u s ≡ (none, s)))
  unfolding state_shard
  added_lem u s xs v = elim (added_cases u s xs v) [
    | inl (less, r, w) ↦ inl (
      less,
      r,
      as_slice-Stands size default (FixedArray.add size s.btc_utxos u).1 (xs ++ (u ∷ [])) w
          ∙ ap (λ k. k ++ (u ∷ [])) (sym (as_slice-Stands size default s.btc_utxos xs v)),
    )
    | inr (full, same) ↦ inr (full, ap (λ k. (k.0, record s { btc_utxos = k.1 })) same)
  ]

  -- The derived implementation meets the contract of StateShard, where a valid shard is one whose array
  -- stands for a list.
  pub state_shard-Laws : Laws (state_shard size default zeroed) Holds
  unfolding state_shard FixedOption.as_ref FixedOption.none FixedOption.some
  state_shard-Laws = record {
    retain-IsValid = λ p s (xs, v). (keep p xs, retain-Stands size default p s.btc_utxos xs v);
    add-IsValid = λ u s (xs, v). add-Holds u s xs v;
    clear-IsValid = λ s v. v;
    set-IsValid = λ u s v. v;
    counted =
        λ s (xs, v). v.counted ∙ sym (ap length (as_slice-Stands size default s.btc_utxos xs v));
    bounded = λ s (xs, v). omega (arith, v.counted, v.bounded);
    retained = λ p s (xs, v).
        as_slice-Stands size default _ (keep p xs) (retain-Stands size default p s.btc_utxos xs v)
        ∙ ap (keep p) (sym (as_slice-Stands size default s.btc_utxos xs v));
    added = λ u s (xs, v). added_lem u s xs v;
    set_rune = λ u s. refl;
    cleared = λ s. refl;
    retain_rune = λ p s. refl;
    add_rune = λ u s. refl;
    clear_btc = λ s. refl;
    set_btc = λ u s. refl;
  }
