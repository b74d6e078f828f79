-- ===== src/Accounts/Borsh/Laws.antt =====
-- The borsh codec: when what is stored can be loaded.
use saturn_crates.Prelude.{
  ℕ, zero, suc, ◌≡◌, ◌≤◌, ◌<◌, ◌⊎◌, refl, sym, ap, ◌∙◌, List, [], ◌∷◌, ◌++◌, Option, none, some, ok,
  err, leb, length, drop, arith, append-nil, Bool-cases, inl, inr,
}
use mathlib.Core.Path.{subst}
use saturn_crates.Accounts.{AccountInfo, free, invalid_account_data}
use saturn_crates.Accounts.ZeroCopy.Laws.{Borrow-cases, length-drop}
use saturn_crates.Accounts.Borsh.{load, store}

-- what borsh says of a value that reads all of a slice
pub record BorshLaws {S : Type 0} (serialize : S → List ℕ) (try_from_slice : List ℕ → Option S)
    : Type 0 where
  pub reads : (s : S) → try_from_slice (serialize s) ≡ some s
  pub reads_all :
      (s : S) (rest : List ℕ) → 0 < length rest → try_from_slice (serialize s ++ rest) ≡ none

drop-all : {A : Type 0} (n : ℕ) (xs : List A) → length xs ≤ n → drop n xs ≡ []
drop-all zero [] h = refl
drop-all (suc n) [] h = refl
drop-all zero (x ∷ xs) h = absurd (omega arith)
drop-all (suc n) (x ∷ xs) h = drop-all n xs (omega arith)

module _ {S : Type 0} (serialize : S → List ℕ) (try_from_slice : List ℕ → Option S) where
  store-ok :
      (s : S) (a : AccountInfo)
      → (store serialize s a).0 ≡ ok tt
      → (length (serialize s) ≤ length a.bytes)
        × ((a.borrow ≡ free)
            × ((store serialize s a).1
                ≡ record a { bytes = serialize s ++ drop (length (serialize s)) a.bytes }))
  unfolding store
  store-ok s a h = elim (Borrow-cases a.borrow) [
    | inr (inl held) ↦ absurd (cc (rw (held, store) at h))
    | inr (inr held) ↦ absurd (cc (rw (held, store) at h))
    | inl idle ↦ elim (Bool-cases (leb (length (serialize s)) (length a.bytes))) [
      | inr long ↦ absurd (cc (rw (idle, long, store) at h))
      | inl fits ↦ (
        ground arith,
        (
          idle,
          rw (idle, fits, store)
              (ap
                (λ b. record a {
                  bytes = serialize s ++ drop (length (serialize s)) a.bytes;
                  borrow = b;
                })
                idle),
        ),
      )
    ]
  ]

  -- (Bytes give the value they are written from, if there are no more of them.) What is stored can be loaded
  -- exactly if it fills the account: a load gives the value where its bytes are as many as those of the
  -- account, and fails where they are fewer, since what was behind them is left.
  pub store-load :
      (laws : BorshLaws serialize try_from_slice) (s : S) (a : AccountInfo)
      → (store serialize s a).0 ≡ ok tt
      → ((length (serialize s) ≡ length a.bytes)
          × (load try_from_slice (store serialize s a).1 ≡ ok s))
        ⊎ ((length (serialize s) < length a.bytes)
            × (load try_from_slice (store serialize s a).1 ≡ err invalid_account_data))
  unfolding load
  store-load laws s a h =
      let (fits, (idle, stored)) = store-ok s a h in
      let rest = drop (length (serialize s)) a.bytes in
      elim (Bool-cases (leb (length a.bytes) (length (serialize s)))) [
        | inl all ↦
            let same : length (serialize s) ≡ length a.bytes = ground (arith, fits) in
            let bytes : serialize s ++ rest ≡ serialize s =
              ap (λ k. serialize s ++ k)
                (drop-all (length (serialize s)) a.bytes (omega (arith, same)))
              ∙ append-nil (serialize s) in
            inl (
              same,
              subst (λ b. load try_from_slice b ≡ ok s) (sym stored)
                  (rw (idle, load) (rw (bytes, laws.reads s) refl)),
            )
        | inr left ↦
            let less : length (serialize s) < length a.bytes = ground (arith, fits) in
            let more : 0 < length rest =
              omega (arith, less, length-drop (length (serialize s)) a.bytes fits) in
            inr (
              less,
              subst (λ b. load try_from_slice b ≡ err invalid_account_data) (sym stored)
                  (rw (idle, load) (rw (laws.reads_all s rest more) refl)),
            )
      ]
