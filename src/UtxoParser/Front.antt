-- ===== src/UtxoParser/Front.antt =====
-- What one field of a parser takes from the inputs.
use mathlib.Core.Path.{subst}
use saturn_crates.Prelude.{
  ℕ, zero, suc, ◌+◌, ◌≡◌, ◌≤◌, ◌<◌, ◌⊎◌, refl, sym, ap, ◌∙◌, List, [], ◌∷◌, ◌++◌, true, false, not,
  Option, none, some, Result, ok, ltb, length, drop, All, arith, Bool-cases, ok-injective, inl, inr,
  append-nil,
}
use saturn_crates.Prelude.Exec.{try-ok, unless-ok, when-ok, assert-ok}
use saturn_crates.Transactions.Chain.{UtxoMeta}
use saturn_crates.Transactions.Builder.State.{UtxoInfo}
use saturn_crates.Accounts.{ProgramError}
use saturn_crates.Accounts.ZeroCopy.Laws.{length-drop}
use saturn_crates.UtxoParser.{
  FieldKind, single, array, vec, optional, Field, build_predicate_with_anchor_logic, anchor_at,
  extract_vec, extract_as, extract_single, extract_optional, elements, anchored, matching,
}

module _ (info : UtxoMeta → Result ProgramError UtxoInfo) (len : ℕ → ℕ) where
  -- the UTXOs are those of the inputs
  abbrev pub Reads : List UtxoMeta → List UtxoInfo → Type 0
  Reads [] [] = Unit
  Reads (m ∷ ms) (u ∷ us) = (info m ≡ ok u) × Reads ms us
  Reads [] (u ∷ us) = ⊥
  Reads (m ∷ ms) [] = ⊥

  abbrev pub Satisfies : Field → UtxoInfo → Type 0
  Satisfies f u = build_predicate_with_anchor_logic f u ≡ true

  -- The first inputs give the field its UTXOs.
  abbrev pub Front : Field → List UtxoMeta → List UtxoInfo → List UtxoMeta → Type 0
  Front f ms us rest =
      (front : List UtxoMeta) × (ms ≡ front ++ rest) × (Reads front us × All (Satisfies f) us)

  nothing_read : (f : Field) (ms : List UtxoMeta) → Front f ms [] ms
  nothing_read f ms = ([], refl, (tt, tt))

  one_more :
      (f : Field) (m : UtxoMeta) (ms : List UtxoMeta) (u : UtxoInfo) (us : List UtxoInfo)
      (rest : List UtxoMeta)
      → info m ≡ ok u
      → Satisfies f u
      → Front f ms us rest
      → Front f (m ∷ ms) (u ∷ us) rest
  one_more f m ms u us rest i p (front, e, (r, a)) =
      (m ∷ front, ap (λ k. m ∷ k) e, ((i, r), (p, a)))

  -- The elements of an array from `i` on, of which there are `n`, have accounts.
  abbrev pub Indexed : Option ℕ → ℕ → ℕ → Type 0
  Indexed none i n = Unit
  Indexed (some ident) i n = (n ≡ 0) ⊎ (i + n ≤ len ident)

  none-Indexed : (a : Option ℕ) (i : ℕ) → Indexed a i 0
  none-Indexed none i = tt
  none-Indexed (some ident) i = inl refl

  one-Indexed :
      (a : Option ℕ) (i n : ℕ)
      → anchor_at info len a i ≡ ok tt
      → Indexed a (i + 1) n
      → Indexed a i (suc n)
  one-Indexed none i n h r = tt
  one-Indexed (some ident) i n h r = elim (Bool-cases (ltb i (len ident))) [
    | inl less ↦ elim r [
      | inl last ↦ inr (ground (arith, less, last))
      | inr more ↦ inr (omega (arith, more))
    ]
    | inr out ↦ absurd (cc (rw (out, anchor_at) at h))
  ]

  pub first-Indexed :
      (a : Option ℕ) (i n : ℕ)
      → Indexed a i (suc n)
      → (anchor_at info len a i ≡ ok tt) × Indexed a (i + 1) n
  first-Indexed none i n r = (refl, tt)
  first-Indexed (some ident) i n (inl h) = absurd (omega arith)
  first-Indexed (some ident) i n (inr h) =
      let less : ltb i (len ident) ≡ true = ground (arith, h) in
      (rw (less, anchor_at) refl, inr (omega (arith, h)))

  elements-Front :
      (f : Field) (i n : ℕ) (ms : List UtxoMeta) (us : List UtxoInfo) (rest : List UtxoMeta)
      → elements info len f i n ms ≡ ok (us, rest)
      → Front f ms us rest × ((length us ≡ n) × Indexed f.attr.anchor_ident i n)
  unfolding elements
  elements-Front f i zero ms us rest h =
      subst (λ k. Front f ms k.0 k.1 × ((length k.0 ≡ 0) × Indexed f.attr.anchor_ident i 0))
        (ok-injective h) (nothing_read f ms, (refl, none-Indexed f.attr.anchor_ident i))
  elements-Front f i (suc n) [] us rest h = absurd cc
  elements-Front f i (suc n) (m ∷ ms) us rest h =
      let (u, (read, h1)) = try-ok (info m) _ (us, rest) h in
      let (fits, h2) = unless-ok (not (build_predicate_with_anchor_logic f u)) _ _ (us, rest) h1 in
      let (done, (there, h3)) = try-ok (anchor_at info len f.attr.anchor_ident i) _ (us, rest) h2 in
      let (later, (taken, h4)) = try-ok (elements info len f (i + 1) n ms) _ (us, rest) h3 in
      let (front, (many, indexed)) = elements-Front f (i + 1) n ms later.0 later.1 taken in
      subst
        (λ k.
          Front f (m ∷ ms) k.0 k.1 × ((length k.0 ≡ suc n) × Indexed f.attr.anchor_ident i (suc n)))
        (ok-injective h4)
        (
          one_more f m ms u later.0 later.1 read (ground (arith, fits)) front,
          (ap suc many, one-Indexed f.attr.anchor_ident i n there indexed),
        )

  anchored-Front :
      (f : Field) (n : ℕ) (ms : List UtxoMeta) (us : List UtxoInfo) (rest : List UtxoMeta)
      → anchored info len f n ms ≡ ok (us, rest)
      → Front f ms us rest × (length us ≡ n)
  unfolding anchored
  anchored-Front f zero ms us rest h =
      subst (λ k. Front f ms k.0 k.1 × (length k.0 ≡ 0)) (ok-injective h) (nothing_read f ms, refl)
  anchored-Front f (suc n) [] us rest h = absurd cc
  anchored-Front f (suc n) (m ∷ ms) us rest h =
      let (u, (read, h1)) = try-ok (info m) _ (us, rest) h in
      let (fits, h2) = unless-ok (not (build_predicate_with_anchor_logic f u)) _ _ (us, rest) h1 in
      let (later, (taken, h3)) = try-ok (anchored info len f n ms) _ (us, rest) h2 in
      let (front, many) = anchored-Front f n ms later.0 later.1 taken in
      subst (λ k. Front f (m ∷ ms) k.0 k.1 × (length k.0 ≡ suc n)) (ok-injective h3)
        (one_more f m ms u later.0 later.1 read (ground (arith, fits)) front, ap suc many)

  extract_single-Front :
      (f : Field) (ms : List UtxoMeta) (us : List UtxoInfo) (rest : List UtxoMeta)
      → extract_single info len f ms ≡ ok (us, rest)
      → Front f ms us rest × (length us ≡ 1)
  unfolding extract_single
  extract_single-Front f [] us rest h = absurd cc
  extract_single-Front f (m ∷ ms) us rest h =
      let (u, (read, h1)) = try-ok (info m) _ (us, rest) h in
      let (fits, h2) = when-ok (build_predicate_with_anchor_logic f u) _ _ (us, rest) h1 in
      subst (λ k. Front f (m ∷ ms) k.0 k.1 × (length k.0 ≡ 1)) (ok-injective h2)
        (one_more f m ms u [] ms read fits (nothing_read f ms), refl)

  -- There is no further input, or the next one does not satisfy the predicate.
  abbrev pub Skips : Field → List UtxoMeta → Type 0
  Skips f [] = Unit
  Skips f (m ∷ ms) =
      (u : UtxoInfo) × ((info m ≡ ok u) × (build_predicate_with_anchor_logic f u ≡ false))

  abbrev pub AtMostOne : Field → List UtxoInfo → List UtxoMeta → Type 0
  AtMostOne f us rest = (length us ≡ 1) ⊎ ((length us ≡ 0) × Skips f rest)

  extract_optional-Front :
      (f : Field) (ms : List UtxoMeta) (us : List UtxoInfo) (rest : List UtxoMeta)
      → extract_optional info len f ms ≡ ok (us, rest)
      → Front f ms us rest × AtMostOne f us rest
  unfolding extract_optional
  extract_optional-Front f [] us rest h =
      subst (λ k. Front f [] k.0 k.1 × AtMostOne f k.0 k.1) (ok-injective h)
        (nothing_read f [], inr (refl, tt))
  extract_optional-Front f (m ∷ ms) us rest h =
      let (u, (read, h1)) = try-ok (info m) _ (us, rest) h in
      elim (Bool-cases (build_predicate_with_anchor_logic f u)) [
        | inl fits ↦
            subst (λ k. Front f (m ∷ ms) k.0 k.1 × AtMostOne f k.0 k.1)
              (ok-injective (rw fits at h1))
              (one_more f m ms u [] ms read fits (nothing_read f ms), inl refl)
        | inr differs ↦
            subst (λ k. Front f (m ∷ ms) k.0 k.1 × AtMostOne f k.0 k.1)
              (ok-injective (rw differs at h1))
              (nothing_read f (m ∷ ms), inr (refl, (u, (read, differs))))
      ]

  -- The inputs that match are no more than there are, and if they are all, they are read in order.
  matching_whole :
      (f : Field) (ms : List UtxoMeta) (us : List UtxoInfo)
      → matching info len f ms ≡ ok us
      → (length us ≤ length ms) × ((length us < length ms) ⊎ (Reads ms us × All (Satisfies f) us))
  unfolding matching
  matching_whole f [] us h =
      subst (λ k. (length k ≤ 0) × ((length k < 0) ⊎ (Reads [] k × All (Satisfies f) k)))
        (ok-injective h) (omega arith, inr (tt, tt))
  matching_whole f (m ∷ ms) us h =
      let (u, (read, h1)) = try-ok (info m) _ us h in
      let (later, (taken, h2)) = try-ok (matching info len f ms) _ us h1 in
      let (fewer, all) = matching_whole f ms later taken in
      elim (Bool-cases (build_predicate_with_anchor_logic f u)) [
        | inl fits ↦
            subst
              (λ k.
                (length k ≤ suc (length ms))
                × ((length k < suc (length ms)) ⊎ (Reads (m ∷ ms) k × All (Satisfies f) k)))
              (ok-injective (rw fits at h2))
              (
                omega (arith, fewer),
                elim all [
                  | inl less ↦ inl (omega (arith, less))
                  | inr (r, a) ↦ inr ((read, r), (fits, a))
                ],
              )
        | inr differs ↦
            subst
              (λ k.
                (length k ≤ suc (length ms))
                × ((length k < suc (length ms)) ⊎ (Reads (m ∷ ms) k × All (Satisfies f) k)))
              (ok-injective (rw differs at h2)) (omega (arith, fewer), inl (omega (arith, fewer)))
      ]

  -- how many UTXOs the field takes, and what stands behind them
  abbrev pub TakesVec : Option ℕ → Field → List UtxoInfo → List UtxoMeta → Type 0
  TakesVec (some ident) f us rest = length us ≡ len ident
  TakesVec none f us rest = (f.attr.rest ≡ true) × (rest ≡ [])

  abbrev pub TakesAs : FieldKind → Field → List UtxoInfo → List UtxoMeta → Type 0
  TakesAs single f us rest = length us ≡ 1
  TakesAs optional f us rest = AtMostOne f us rest
  TakesAs (array n) f us rest = (length us ≡ n) × Indexed f.attr.anchor_ident 0 n
  TakesAs vec f us rest = TakesVec f.attr.anchor_ident f us rest

  extract_vec-Front :
      (a : Option ℕ) (f : Field) (ms : List UtxoMeta) (us : List UtxoInfo) (rest : List UtxoMeta)
      → extract_vec info len a f ms ≡ ok (us, rest)
      → (f.attr.rest ≡ false) ⊎ (rest ≡ [])
      → Front f ms us rest × TakesVec a f us rest
  unfolding extract_vec
  extract_vec-Front (some ident) f ms us rest h last = anchored-Front f (len ident) ms us rest h
  extract_vec-Front none f ms us rest h last =
      let (is_rest, h0) = assert-ok f.attr.rest _ (us, rest) h in
      let (all, (matched, h1)) = try-ok (matching info len f ms) _ (us, rest) h0 in
      let same : ◌≡◌ {A = List UtxoInfo × List UtxoMeta} (all, drop (length all) ms) (us, rest) =
        ok-injective h1 in
      let empty : rest ≡ [] = elim last [
        | inl closed ↦ absurd (cc (is_rest, closed))
        | inr e ↦ e
      ] in
      let no_more : drop (length all) ms ≡ [] = ap (λ k. k.1) same ∙ empty in
      let (fewer, whole) = matching_whole f ms all matched in
      elim whole [
        | inl less ↦
            absurd (omega (arith, less, length-drop (length all) ms fewer, ap length no_more))
        | inr (r, a) ↦
            subst (λ k. Front f ms k rest × TakesVec none f k rest) (ap (λ k. k.0) same)
              (subst (λ k. Front f ms all k × TakesVec none f all k) (sym empty)
                ((ms, (sym (append-nil ms)), (r, a)), (is_rest, refl)))
      ]

  pub extract_as-Front :
      (k : FieldKind) (f : Field) (ms : List UtxoMeta) (us : List UtxoInfo) (rest : List UtxoMeta)
      → extract_as info len k f ms ≡ ok (us, rest)
      → (f.attr.rest ≡ false) ⊎ (rest ≡ [])
      → Front f ms us rest × TakesAs k f us rest
  unfolding extract_as
  extract_as-Front single f ms us rest h last = extract_single-Front f ms us rest h
  extract_as-Front optional f ms us rest h last = extract_optional-Front f ms us rest h
  extract_as-Front (array n) f ms us rest h last =
      elements-Front f 0 n ms us rest (unless-ok (ltb (length ms) n) _ _ (us, rest) h).1
  extract_as-Front vec f ms us rest h last =
      extract_vec-Front f.attr.anchor_ident f ms us rest h last
