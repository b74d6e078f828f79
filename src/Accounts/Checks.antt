-- ===== src/Accounts/Checks.antt =====
-- What the checks on an account let pass.
use saturn_crates.Prelude.{
  ℕ, ◌+◌, ◌≡◌, ◌<◌, ◌↔◌, refl, sym, ap, ◌∙◌, List, [], ◌∷◌, ◌++◌, Bool, true, false, Option, none,
  some, Result, ok, err, panicked, ltb, ◌==◌, if◌then◌else◌, length, get_elem?, drop, replicate,
  arith, length-append, length-replicate, take-set, Bool-cases, Option-cases, inl, inr, try_,
  ok-injective, overwrite, fun_ext,
}
use mathlib.Core.Path.{subst}
use saturn_crates.Accounts.{
  incorrect_is_signer_flag, incorrect_is_writable_flag, invalid_account_key, invalid_pda,
  AccountInfo, ProgramError, ErrorCode, invalid_seeds, custom, code, expect, get_account,
  get_pda_account, get_indexed_pda_account, le_bytes, seeds_slice, same_flag,
}

-- The value is as expected, where one is expected.
abbrev pub Meets : {A : Type 0} → Option A → A → Type 0
Meets none a = Unit
Meets (some e) a = a ≡ e

expect-Meets :
    (e : Option Bool) (b : Bool) (c : ErrorCode) → (expect e (same_flag b) c ≡ ok tt) ↔ Meets e b
expect-Meets none b c = ((λ _. tt), λ _. refl)
expect-Meets (some true) true c = ((λ _. refl), λ _. refl)
expect-Meets (some true) false c = ((λ h. cc), λ h. cc)
expect-Meets (some false) true c = ((λ h. cc), λ h. cc)
expect-Meets (some false) false c = ((λ _. refl), λ _. refl)

expect-key : (e : Option ℕ) (k : ℕ) (c : ErrorCode) → (expect e (λ x. k == x) c ≡ ok tt) ↔ Meets e k
expect-key none k c = ((λ _. tt), λ _. refl)
expect-key (some e) k c = ((λ h. ground arith), λ h. ground arith)

-- a chain passes exactly if each test does
chain :
    {A : Type 0} (r : Result ProgramError (Unit {0})) (k : Result ProgramError A) (a : A)
    → (try_ r (λ _. k) ≡ ok a) ↔ ((r ≡ ok tt) × (k ≡ ok a))
chain (ok tt) k a = ((λ h. (refl, h)), λ h. h.1)
chain (err e) k a = ((λ h. absurd (cc)), λ h. absurd (cc))
chain panicked k a = ((λ h. absurd (cc)), λ h. absurd (cc))

-- the tests on the account that is there
tests : Option Bool → Option Bool → Option ℕ → AccountInfo → Result ProgramError AccountInfo
tests is_signer is_writable key a =
    try_ (expect is_signer (same_flag a.is_signer) incorrect_is_signer_flag) λ _.
      try_ (expect is_writable (same_flag a.is_writable) incorrect_is_writable_flag)
        λ _. try_ (expect key (λ k. a.key == k) invalid_account_key) λ _. ok a

tests_iff :
    (is_signer is_writable : Option Bool) (key : Option ℕ) (a acc : AccountInfo)
    → (tests is_signer is_writable key a ≡ ok acc) ↔ (
        (a ≡ acc)
        × (Meets is_signer acc.is_signer × Meets is_writable acc.is_writable × Meets key acc.key))
unfolding tests
tests_iff is_signer is_writable key a acc =
    let last : Result ProgramError AccountInfo = ok a in
    let third = expect key (λ k. a.key == k) invalid_account_key in
    let second = expect is_writable (same_flag a.is_writable) incorrect_is_writable_flag in
    let first = expect is_signer (same_flag a.is_signer) incorrect_is_signer_flag in
    (
      (λ h.
          let (f, h1) = (chain first (try_ second λ _. try_ third λ _. last) acc).0 h in
          let (g, h2) = (chain second (try_ third λ _. last) acc).0 h1 in
          let (k, h3) = (chain third last acc).0 h2 in
          let same : a ≡ acc = ok-injective h3 in
          (
            same,
            subst
                (λ x.
                  Meets is_signer x.is_signer × Meets is_writable x.is_writable × Meets key x.key)
                same
                (
                  (expect-Meets is_signer a.is_signer incorrect_is_signer_flag).0 f,
                  (expect-Meets is_writable a.is_writable incorrect_is_writable_flag).0 g,
                  (expect-key key a.key invalid_account_key).0 k,
                ),
          )),
      (λ (same, meets).
          let (s, w, k) =
            subst
              (λ x. Meets is_signer x.is_signer × Meets is_writable x.is_writable × Meets key x.key)
              (sym same) meets in
          (chain first (try_ second λ _. try_ third λ _. last) acc).1 (
            (expect-Meets is_signer a.is_signer incorrect_is_signer_flag).1 s,
            (chain second (try_ third λ _. last) acc).1 (
              (expect-Meets is_writable a.is_writable incorrect_is_writable_flag).1 w,
              (chain third last acc).1 ((expect-key key a.key invalid_account_key).1 k, ap ok same),
            ),
          )),
    )

-- The call gives an account exactly if it stands at the index and its flags and its key are as expected,
-- where the caller expects any.
pub get_account_iff :
    (accounts : List AccountInfo) (index : ℕ) (is_signer is_writable : Option Bool) (key : Option ℕ)
    (acc : AccountInfo)
    → (get_account accounts index is_signer is_writable key ≡ ok acc) ↔ (
        (get_elem? accounts index ≡ some acc)
        × (Meets is_signer acc.is_signer × Meets is_writable acc.is_writable × Meets key acc.key))
unfolding get_account tests
get_account_iff accounts index is_signer is_writable key acc =
    elim (Option-cases (get_elem? accounts index)) [
      | inl missing ↦ (
        (λ h. absurd (cc (rw (missing, get_account) at h))),
        (λ (at, _). absurd (cc (missing, at))),
      )
      | inr (a, at) ↦
          let checks = tests_iff is_signer is_writable key a acc in
          (
            (λ h.
                let (same, meets) = checks.0 (rw (at, get_account) at h) in
                (at ∙ ap some same, meets)),
            (λ (here, meets).
                let same : a ≡ acc = cc (at, here) in
                rw (at, get_account) (checks.1 (same, meets))),
          )
    ]

seeds_slice-fits :
    (max_seeds : ℕ) (base : List (List ℕ)) (idx : ℕ)
    → length base < max_seeds
    → seeds_slice max_seeds base idx ≡ base ++ (le_bytes idx ∷ [])
unfolding seeds_slice
seeds_slice-fits max_seeds base idx h =
    let empty : List ℕ = [] in
    let buffer = replicate max_seeds empty in
    let (long, front) =
      overwrite base buffer (omega (arith, h, length-replicate max_seeds empty)) in
    take-set (base ++ drop (length base) buffer) (length base) (le_bytes idx)
      (omega (arith, long, h, length-replicate max_seeds empty))
    ∙ ap (λ k. k ++ (le_bytes idx ∷ [])) front

module _ (max_seeds : ℕ) (find_program_address : List (List ℕ) → ℕ → ℕ) where
  -- An account with an index is looked up as an account whose last seed is the index, in two bytes from the
  -- lower to the higher: the two calls agree on every result, the errors included.
  pub get_indexed_pda_account-get_pda_account :
      (accounts : List AccountInfo) (index : ℕ) (is_signer is_writable : Option Bool)
      (base : List (List ℕ)) (idx program_id : ℕ)
      → get_indexed_pda_account max_seeds find_program_address accounts index is_signer is_writable
          base idx program_id
        ≡ get_pda_account max_seeds find_program_address accounts index is_signer is_writable
            (base ++ (le_bytes idx ∷ []))
            program_id
  unfolding get_indexed_pda_account get_pda_account
  get_indexed_pda_account-get_pda_account accounts index is_signer is_writable base idx program_id =
      ap (try_ (get_account accounts index is_signer is_writable none)) (fun_ext same)
    where
      same :
          (acc : AccountInfo)
          → ◌≡◌ {A = Result ProgramError AccountInfo}
              (if ltb max_seeds (length base + 1)
                then err invalid_seeds
                else if acc.key == find_program_address (seeds_slice max_seeds base idx) program_id
                then ok acc
                else err (custom (code invalid_pda)))
              (if ltb max_seeds (length (base ++ (le_bytes idx ∷ [])))
                then err invalid_seeds
                else if acc.key == find_program_address (base ++ (le_bytes idx ∷ [])) program_id
                then ok acc
                else err (custom (code invalid_pda)))
      same acc =
          let long = length-append base (le_bytes idx ∷ []) in
          elim (Bool-cases (ltb max_seeds (length base + 1))) [
            | inl over ↦
                let over' : ltb max_seeds (length (base ++ (le_bytes idx ∷ []))) ≡ true =
                  ground (arith, long) in
                rw (over, over') refl
            | inr fits ↦
                let fits' : ltb max_seeds (length (base ++ (le_bytes idx ∷ []))) ≡ false =
                  ground (arith, long) in
                rw (fits, fits', seeds_slice-fits max_seeds base idx (ground arith)) refl
          ]
