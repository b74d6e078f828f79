-- ===== src/Shards/Update/Inserted.antt =====
-- What `update_shards_utxos` of saturn-account-shards/src/update.rs adds to the shards.
use saturn_crates.Prelude.{
  ℕ, ◌≡◌, refl, sym, ap, ◌∙◌, List, [], ◌∷◌, ◌++◌, Bool, true, false, some, ok, map, leb,
  if◌then◌else◌, All, Option-cases, Result-cases, inl, inr,
}
use mathlib.Core.List.{Perm, perm_middle, map-append}
use mathlib.Core.List.Perm
use mathlib.Core.Path.{subst}
use saturn_crates.Prelude.Exec.{◌>>◌, continue-ok, map_err_m, map_err-ok}
use saturn_crates.Prelude.Sort.{sort_by, sort_by-perm}
use saturn_crates.Transactions.Chain.{UtxoMeta, FeeRate}
use saturn_crates.Transactions.Builder.State.{UtxoInfo}
use saturn_crates.Shards.Errors.{StateShardError, rune_amount_addition_overflow}
use saturn_crates.Shards.Set.{StateShard, ShardSet, with_mut}
use saturn_crates.Shards.Set.Laws.{Laws, Sound, AllSound, All-set}
use saturn_crates.Shards.Set.Access.{
  with_mut-ok, Sound-IsValid, held_in, held_in-gain, held_in-same, rewritten,
}
use saturn_crates.Shards.Update.Spent.{remove_utxos-AllSound}
use saturn_crates.Shards.Update.{
  select_best_shard_to_add_btc_to, is_crowded, take_rune, insert_rune_utxos, add_btc, add_btc_utxos,
  update_shards_utxos, remove_utxos_from_shards,
}

module _ {S : Type 0} (t : StateShard S) where
  -- the outpoints of the satoshi UTXOs that a shard holds, and that all accounts hold
  abbrev pub btc_metas : S → List UtxoMeta
  btc_metas s = map (λ u. u.meta) (t.btc_utxos s)

  abbrev pub all_btc_metas : ShardSet S → List UtxoMeta
  all_btc_metas shards = held_in btc_metas shards.loaders

same_meta :
    (crowded : Bool) (rate : FeeRate) (u : UtxoInfo)
    → (if crowded then record u { needs_consolidation = some rate } else u).meta ≡ u.meta
same_meta true rate u = refl
same_meta false rate u = refl

module _ {S : Type 0} (t : StateShard S) (IsValid : S → Type 0) (laws : Laws t IsValid) where
  -- the state after a step that kept all shards valid and added `metas`
  record Gained (metas : List UtxoMeta) (before after : ShardSet S) : Type 0 where
    sound : AllSound IsValid after
    gained : Perm (all_btc_metas t after) (metas ++ all_btc_metas t before)

  add_step :
      (target : ℕ) (u : UtxoInfo) (shards : ShardSet S) (i : ℕ)
      → AllSound IsValid shards
      → (with_mut target (t.add_btc_utxo u) shards).0 ≡ ok (some i)
      → Gained (u.meta ∷ []) shards (with_mut target (t.add_btc_utxo u) shards).1
  add_step target u shards i sound h =
      let (l, s, at, full, gave, loaders) =
        with_mut-ok target (t.add_btc_utxo u) shards (some i) h in
      let v = Sound-IsValid IsValid shards target l s sound at full in
      elim (laws.added u s v) [
        | inl (_, _, grown) ↦ record {
          sound = subst (All (Sound IsValid)) (sym loaders) (
              All-set (Sound IsValid) shards.loaders target (rewritten l (t.add_btc_utxo u s).1)
                sound (laws.add-IsValid u s v));
          gained =
              subst (λ k. Perm (held_in (btc_metas t) k) (u.meta ∷ all_btc_metas t shards))
                (sym loaders)
                (held_in-gain (btc_metas t) shards.loaders target l s (t.add_btc_utxo u s).1 u.meta
                  at full
                  (ap (map (λ k. k.meta)) grown
                    ∙ map-append (λ k. k.meta) (t.btc_utxos s) (u ∷ [])));
        }
        | inr (_, failed) ↦ absurd (cc (gave, ap (λ k. k.0) failed))
      ]

  taken :
      (utxos : List UtxoInfo) (s : S)
      → IsValid s
      → IsValid (take_rune t utxos s).1 × (t.btc_utxos (take_rune t utxos s).1 ≡ t.btc_utxos s)
  taken [] s v = elim (Option-cases (t.rune_utxo s)) [
    | inl e ↦ rw (e, take_rune) (v, refl)
    | inr (u, e) ↦ rw (e, take_rune) (v, refl)
  ]
  taken (u ∷ us) s v = elim (Option-cases (t.rune_utxo s)) [
    | inl e ↦ rw (e, take_rune) (laws.set-IsValid u s v, laws.set_btc u s)
    | inr (k, e) ↦ rw (e, take_rune) (v, refl)
  ]

  rune_step :
      (idx : ℕ) (utxos rest : List UtxoInfo) (shards : ShardSet S)
      → AllSound IsValid shards
      → (with_mut idx (take_rune t utxos) shards).0 ≡ ok rest
      → Gained [] shards (with_mut idx (take_rune t utxos) shards).1
  rune_step idx utxos rest shards sound h =
      let (l, s, at, full, _, loaders) = with_mut-ok idx (take_rune t utxos) shards rest h in
      let v = Sound-IsValid IsValid shards idx l s sound at full in
      let (valid, same) = taken utxos s v in
      record {
        sound = subst (All (Sound IsValid)) (sym loaders) (
            All-set (Sound IsValid) shards.loaders idx (rewritten l (take_rune t utxos s).1) sound
              valid);
        gained =
            subst (λ k. Perm k (all_btc_metas t shards))
              (sym (
                ap (held_in (btc_metas t)) loaders
                ∙ held_in-same (btc_metas t) shards.loaders idx l s (take_rune t utxos s).1 at full
                    (ap (map (λ k. k.meta)) same)))
              (Perm.refl (all_btc_metas t shards));
      }

  insert_rune_utxos-Gained :
      (idxs : List ℕ) (utxos : List UtxoInfo) (shards : ShardSet S)
      → AllSound IsValid shards
      → (insert_rune_utxos t idxs utxos shards).0 ≡ ok tt
      → Gained [] shards (insert_rune_utxos t idxs utxos shards).1
  unfolding insert_rune_utxos
  insert_rune_utxos-Gained [] utxos shards sound h = record {
    sound = sound;
    gained = Perm.refl (all_btc_metas t shards);
  }
  insert_rune_utxos-Gained (idx ∷ rest) utxos shards sound h =
      let m =
        map_err_m {F = StateShardError} (λ _. rune_amount_addition_overflow)
          (with_mut idx (take_rune t utxos)) in
      let (left, done, next) =
        continue-ok (m shards).0 (insert_rune_utxos t rest) (m shards).1 tt h in
      let one = rune_step idx utxos left shards sound (
        map_err-ok (λ _. rune_amount_addition_overflow) (with_mut idx (take_rune t utxos) shards).0
          left done) in
      let more =
        insert_rune_utxos-Gained rest left (m shards).1 one.sound (sym (ap (λ k. k.0) next) ∙ h) in
      subst (λ k. Gained [] shards k.1) (sym next)
        (record { sound = more.sound; gained = Perm.trans more.gained one.gained })

  -- what a successful step of the last loop is
  add_btc-ok :
      (rate : FeeRate) (idxs : List ℕ) (u : UtxoInfo) (shards : ShardSet S)
      → (add_btc t rate idxs u shards).0 ≡ ok tt
      → (target : ℕ) × (i : ℕ) × (u' : UtxoInfo) × (u'.meta ≡ u.meta)
        × ((with_mut target (t.add_btc_utxo u') shards).0 ≡ ok (some i))
        × ((add_btc t rate idxs u shards).1 ≡ (with_mut target (t.add_btc_utxo u') shards).1)
  unfolding add_btc
  add_btc-ok rate idxs u shards h =
      elim (Result-cases (select_best_shard_to_add_btc_to t shards idxs)) [
        | inl (best, found) ↦ elim (Option-cases best) [
          | inl e ↦ absurd (cc (rw (found, e, add_btc) at h))
          | inr (target, e) ↦ elim (Result-cases (is_crowded t shards target)) [
            | inl (crowded, read) ↦
                let u' : UtxoInfo =
                  if crowded then record u { needs_consolidation = some rate } else u in
                elim (Result-cases (with_mut target (t.add_btc_utxo u') shards).0) [
                  | inl (added, wrote) ↦ elim (Option-cases added) [
                    | inl full ↦ absurd (cc (rw (found, e, read, wrote, full, add_btc) at h))
                    | inr (i, room) ↦ (
                      target,
                      i,
                      u',
                      same_meta crowded rate u,
                      wrote ∙ ap ok room,
                      rw (found, e, read, wrote, room, add_btc) refl,
                    )
                  ]
                  | inr (inl (x, failed)) ↦ absurd (cc (rw (found, e, read, failed, add_btc) at h))
                  | inr (inr panic) ↦ absurd (cc (rw (found, e, read, panic, add_btc) at h))
                ]
            | inr (inl (x, failed)) ↦ absurd (cc (rw (found, e, failed, add_btc) at h))
            | inr (inr panic) ↦ absurd (cc (rw (found, e, panic, add_btc) at h))
          ]
        ]
        | inr (inl (x, failed)) ↦ absurd (cc (rw (failed, add_btc) at h))
        | inr (inr panic) ↦ absurd (cc (rw (panic, add_btc) at h))
      ]

  add_btc-Gained :
      (rate : FeeRate) (idxs : List ℕ) (u : UtxoInfo) (shards : ShardSet S)
      → AllSound IsValid shards
      → (add_btc t rate idxs u shards).0 ≡ ok tt
      → Gained (u.meta ∷ []) shards (add_btc t rate idxs u shards).1
  add_btc-Gained rate idxs u shards sound h =
      let (target, i, u', same, wrote, after) = add_btc-ok rate idxs u shards h in
      subst (λ k. Gained (u.meta ∷ []) shards k) (sym after)
        (subst (λ m. Gained (m ∷ []) shards (with_mut target (t.add_btc_utxo u') shards).1) same
          (add_step target u' shards i sound wrote))

  add_btc_utxos-Gained :
      (rate : FeeRate) (idxs : List ℕ) (us : List UtxoInfo) (shards : ShardSet S)
      → AllSound IsValid shards
      → (add_btc_utxos t rate idxs us shards).0 ≡ ok tt
      → Gained (map (λ u. u.meta) us) shards (add_btc_utxos t rate idxs us shards).1
  unfolding add_btc_utxos
  add_btc_utxos-Gained rate idxs [] shards sound h = record {
    sound = sound;
    gained = Perm.refl (all_btc_metas t shards);
  }
  add_btc_utxos-Gained rate idxs (u ∷ us) shards sound h =
      let m = add_btc t rate idxs u in
      let (v, done, next) =
        continue-ok (m shards).0 (λ _. add_btc_utxos t rate idxs us) (m shards).1 tt h in
      let one = add_btc-Gained rate idxs u shards sound done in
      let more =
        add_btc_utxos-Gained rate idxs us (m shards).1 one.sound (sym (ap (λ k. k.0) next) ∙ h) in
      let metas = map (λ k. k.meta) us in
      subst (λ k. Gained (u.meta ∷ metas) shards k.1) (sym next)
        (record {
          sound = more.sound;
          gained = Perm.trans more.gained (
              Perm.trans (Perm.append_left metas one.gained)
                (perm_middle metas (all_btc_metas t shards)));
        })

  -- Where the call succeeds, the accounts hold, up to order, the new satoshi UTXOs and the satoshi UTXOs
  -- that the removal of the spent ones left: each once, and no others. (The shards meet the contract of
  -- StateShard and are valid.)
  pub update_shards_utxos-Perm :
      (idxs : List ℕ) (spent : List UtxoMeta) (runes btc : List UtxoInfo) (rate : FeeRate)
      (shards : ShardSet S)
      → AllSound IsValid shards
      → (update_shards_utxos t idxs spent runes btc rate shards).0 ≡ ok tt
      → Perm (all_btc_metas t (update_shards_utxos t idxs spent runes btc rate shards).1) (
          map (λ u. u.meta) btc ++ all_btc_metas t (remove_utxos_from_shards t idxs spent shards).1)
  unfolding update_shards_utxos
  update_shards_utxos-Perm idxs spent runes btc rate shards sound h =
      let sorted = sort_by (λ a b. leb b.value a.value) btc in
      let m1 = remove_utxos_from_shards t idxs spent shards in
      let rest = insert_rune_utxos t idxs runes >> add_btc_utxos t rate idxs sorted in
      let (u1, done1, next1) = continue-ok m1.0 (λ _. rest) m1.1 tt h in
      let m2 = insert_rune_utxos t idxs runes m1.1 in
      let (u2, done2, next2) =
        continue-ok m2.0 (λ _. add_btc_utxos t rate idxs sorted) m2.1 tt
          (sym (ap (λ k. k.0) next1) ∙ h) in
      let sound1 = remove_utxos-AllSound t IsValid laws idxs spent shards sound done1 in
      let runes_in = insert_rune_utxos-Gained idxs runes m1.1 sound1 done2 in
      let btc_in =
        add_btc_utxos-Gained rate idxs sorted m2.1 runes_in.sound
          (sym (ap (λ k. k.0) (next1 ∙ next2)) ∙ h) in
      subst (λ k. Perm (all_btc_metas t k.1) (map (λ u. u.meta) btc ++ all_btc_metas t m1.1))
        (sym (next1 ∙ next2))
        (Perm.trans btc_in.gained (
          Perm.append (Perm.map (λ u. u.meta) (sort_by-perm (λ a b. leb b.value a.value) btc))
            runes_in.gained))
