-- ===== src/Transactions/Builder/Signers.antt =====
-- The inputs to sign, read as pairs of an outpoint and the key that signs for it.
use saturn_crates.Prelude.{
  ℕ, suc, ◌+◌, ◌<◌, ◌≡◌, refl, ap, ap₂, List, [], ◌∷◌, ◌++◌, Option, leb, arith, length, get_elem?,
  map, All, Bool-cases, inl, inr, length-append,
}
use mathlib.Core.Option
use saturn_crates.SafeMath.{u32_mod}
use saturn_crates.Transactions.Chain.{OutPoint, TxIn, InputToSign}
use saturn_crates.Transactions.Builder.State.{insert_at, shift}
use saturn_crates.Transactions.Builder.Frames.{
  length-insert_at, get_elem?-insert_at_le, get_elem?-insert_at_gt, get_elem?-append_lt,
}

-- what a key signs for, given the inputs of the transaction
abbrev pub signature : List TxIn → InputToSign → Option OutPoint × ℕ
signature inputs i = (Option.map (λ t. t.previous_output) (get_elem? inputs i.index), i.signer)

abbrev pub signatures : List TxIn → List InputToSign → List (Option OutPoint × ℕ)
signatures inputs = map (signature inputs)

-- every index is one of the transaction's inputs
abbrev pub InRange : List TxIn → List InputToSign → Type 0
InRange inputs = All (λ i. i.index < length inputs)

pub signatures-append :
    (inputs : List TxIn) (is js : List InputToSign)
    → signatures inputs (is ++ js) ≡ signatures inputs is ++ signatures inputs js
signatures-append inputs [] js = refl
signatures-append inputs (i ∷ is) js =
    ap (λ t. signature inputs i ∷ t) (signatures-append inputs is js)

module _ (inputs : List TxIn) (t : TxIn) (k : ℕ) (small : length inputs + 1 < u32_mod) where
  shift_one :
      (i : InputToSign)
      → i.index < length inputs
      → (signature (insert_at k t inputs) (shift k i) ≡ signature inputs i)
        × ((shift k i).index < length (insert_at k t inputs))
  shift_one i h = elim (Bool-cases (leb k i.index)) [
    | inl e ↦
        let moved : shift k i ≡ record i { index = suc i.index } = ground arith in
        rw moved (
          ap (λ o. (Option.map (λ t. t.previous_output) o, i.signer))
              (get_elem?-insert_at_le k t inputs i.index (ground arith)),
          omega (arith, length-insert_at k t inputs),
        )
    | inr e ↦
        let kept : shift k i ≡ i = ground arith in
        rw kept (
          ap (λ o. (Option.map (λ t. t.previous_output) o, i.signer))
              (get_elem?-insert_at_gt k t inputs i.index (ground arith) h),
          omega (arith, length-insert_at k t inputs),
        )
  ]

  -- Shifted indices sign for the same outpoints after an insertion, and stay in range.
  pub signatures-shift :
      (is : List InputToSign)
      → InRange inputs is
      → (signatures (insert_at k t inputs) (map (shift k) is) ≡ signatures inputs is)
        × InRange (insert_at k t inputs) (map (shift k) is)
  signatures-shift [] r = (refl, tt)
  signatures-shift (i ∷ is) r =
      let (same, range) = shift_one i r.0 in
      let (rest, ranges) = signatures-shift is r.1 in (ap₂ ◌∷◌ same rest, (range, ranges))

-- An input added at the end changes no signature.
pub signatures-input :
    (inputs : List TxIn) (t : TxIn) (is : List InputToSign)
    → InRange inputs is
    → (signatures (inputs ++ (t ∷ [])) is ≡ signatures inputs is) × InRange (inputs ++ (t ∷ [])) is
signatures-input inputs t [] r = (refl, tt)
signatures-input inputs t (i ∷ is) r =
    let (rest, ranges) = signatures-input inputs t is r.1 in
    (
      ap₂ ◌∷◌
          (ap (λ o. (Option.map (λ t. t.previous_output) o, i.signer))
            (get_elem?-append_lt inputs (t ∷ []) i.index r.0))
          rest,
      (omega (arith, length-append inputs (t ∷ [])), ranges),
    )
