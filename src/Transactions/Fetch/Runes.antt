-- ===== src/Transactions/Fetch/Runes.antt =====
-- The runes of an output are read whole or not at all.
use saturn_crates.Prelude.{
  ℕ, ◌≡◌, ◌⊎◌, refl, sym, ap, ◌∙◌, List, [], ◌∷◌, ◌++◌, Bool, true, false, Option, some, Result, ok,
  err, length, any, append-nil, append_assoc, Bool-cases, leb, inl, inr, if◌then◌else◌,
}
use saturn_crates.Collections.FixedSet
use saturn_crates.Collections.FixedSet.{duplicate, full}
use saturn_crates.Collections.FixedSet.Laws.{IsValid, new-IsValid, as_slice-insert}
use saturn_crates.Transactions.Chain.{UtxoMeta, RuneAmount, rune_eq, zero_rune}
use saturn_crates.Transactions.Errors.{BitcoinTxError, more_runes_in_utxo_than_max}
use saturn_crates.Transactions.Fetch.{insert_runes, inserted, get_runes}
use saturn_crates.Transactions.Runes.{RuneSet}

-- the runes are new to `xs`, have different ids and fit behind `xs`
abbrev pub all_new : ℕ → List RuneAmount → List RuneAmount → Bool
all_new size xs [] = true
all_new size xs (r ∷ rs) =
    if any (λ i. rune_eq i r) xs
    then false
    else if leb size (length xs)
    then false
    else all_new size (xs ++ (r ∷ [])) rs

-- The set holds all of them, or the call fails.
abbrev pub WholeOrNone :
    ℕ → List RuneAmount → List RuneAmount → Result BitcoinTxError RuneSet → Type 0
WholeOrNone size xs runes r =
    ((all_new size xs runes ≡ true)
      × ((s : RuneSet) × (r ≡ ok s) × IsValid size s × (FixedSet.as_slice s ≡ xs ++ runes)))
    ⊎ ((all_new size xs runes ≡ false) × (r ≡ err more_runes_in_utxo_than_max))

-- a rune that is refused ends the loop
refused :
    (size : ℕ) (rune : RuneAmount) (runes : List RuneAmount) (s : RuneSet)
    (e : FixedSet.FixedSetError)
    → all_new size (FixedSet.as_slice s) (rune ∷ runes) ≡ false
    → (FixedSet.insert rune_eq size s rune).0 ≡ err e
    → WholeOrNone size (FixedSet.as_slice s) (rune ∷ runes) (insert_runes size (rune ∷ runes) s)
unfolding insert_runes
refused size rune runes s e old h =
    inr (
      old,
      ap (λ r. inserted r (insert_runes size runes (FixedSet.insert rune_eq size s rune).1)) h,
    )

insert_runes-WholeOrNone :
    (size : ℕ) (runes : List RuneAmount) (s : RuneSet)
    → IsValid size s
    → WholeOrNone size (FixedSet.as_slice s) runes (insert_runes size runes s)
unfolding insert_runes
insert_runes-WholeOrNone size [] s v =
    inl (refl, (s, refl, v, sym (append-nil (FixedSet.as_slice s))))
insert_runes-WholeOrNone size (rune ∷ runes) s v =
    let xs = FixedSet.as_slice s in
    let (v', e) = as_slice-insert rune_eq size s rune v in
    elim (Bool-cases (any (λ i. rune_eq i rune) xs)) [
      | inl old ↦ refused size rune runes s duplicate (rw old refl) (ap (λ t. t.0) e ∙ rw old refl)
      | inr new ↦ elim (Bool-cases (leb size (length xs))) [
        | inl no_room ↦
            refused size rune runes s full (rw new (rw no_room refl))
              (ap (λ t. t.0) e ∙ rw new (rw no_room refl))
        | inr room ↦
            let done : (FixedSet.insert rune_eq size s rune).0 ≡ ok tt =
              ap (λ t. t.0) e ∙ rw new (rw room refl) in
            let grown : FixedSet.as_slice (FixedSet.insert rune_eq size s rune).1
                ≡ xs ++ (rune ∷ []) =
              ap (λ t. t.1) e ∙ rw new (rw room refl) in
            let next =
              ap (λ r. inserted r (insert_runes size runes (FixedSet.insert rune_eq size s rune).1))
                done in
            let test : all_new size xs (rune ∷ runes)
                ≡ all_new size (FixedSet.as_slice (FixedSet.insert rune_eq size s rune).1) runes =
              rw new (rw room refl) ∙ ap (λ k. all_new size k runes) (sym grown) in
            elim (insert_runes-WholeOrNone size runes (FixedSet.insert rune_eq size s rune).1 v') [
              | inl (fresh, (s', r, w, all)) ↦ inl (
                test ∙ fresh,
                (
                  s',
                  next ∙ r,
                  w,
                  all ∙ ap (λ k. k ++ runes) grown ∙ append_assoc xs (rune ∷ []) runes,
                ),
              )
              | inr (stale, r) ↦ inr (test ∙ stale, next ∙ r)
            ]
      ]
    ]

-- (The runtime holds runes for the output.) The set that the call gives holds these runes, all and in their
-- order, if they have different ids and fit the set; or else the call fails.
pub get_runes-WholeOrNone :
    (held : ℕ → ℕ → Option (List RuneAmount)) (size : ℕ) (utxo : UtxoMeta) (runes : List RuneAmount)
    → held utxo.txid utxo.vout ≡ some runes
    → WholeOrNone size [] runes (get_runes held size utxo)
unfolding get_runes FixedSet.new
get_runes-WholeOrNone held size utxo runes h =
    rw h (
      insert_runes-WholeOrNone size runes (FixedSet.new size zero_rune)
        (new-IsValid size zero_rune))
