-- ===== src/UtxoParser/Accepted.antt =====
-- What a field can take from the inputs, its extractor takes.
use mathlib.Core.Path.{subst}
use saturn_crates.Prelude.{
  ℕ, zero, suc, ◌+◌, ◌≡◌, refl, sym, ap, ◌∙◌, List, [], ◌∷◌, ◌++◌, false, Option, none, some,
  Result, ok, try_, ltb, length, drop, All, arith, length-append, append-nil, inl, inr,
}
use saturn_crates.Prelude.Exec.{asserted}
use saturn_crates.Transactions.Chain.{UtxoMeta}
use saturn_crates.Transactions.Builder.State.{UtxoInfo}
use saturn_crates.Accounts.{ProgramError}
use saturn_crates.UtxoParser.{
  FieldKind, single, array, vec, optional, Field, extract_single, extract_optional, elements,
  anchored, matching, extract_vec, extract_as, Extract,
}
use saturn_crates.UtxoParser.Front.{
  Reads, Satisfies, Indexed, first-Indexed, AtMostOne, TakesVec, TakesAs,
}

module _ (info : UtxoMeta → Result ProgramError UtxoInfo) (len : ℕ → ℕ) where
  elements-taken :
      (f : Field) (i n : ℕ) (front : List UtxoMeta) (us : List UtxoInfo) (rest : List UtxoMeta)
      → Reads info len front us
      → All (Satisfies info len f) us
      → length us ≡ n
      → Indexed info len f.attr.anchor_ident i n
      → elements info len f i n (front ++ rest) ≡ ok (us, rest)
  unfolding elements
  elements-taken f i zero [] [] rest r a many at = refl
  elements-taken f i (suc n) [] [] rest r a many at = absurd (omega arith)
  elements-taken f i n [] (u ∷ us) rest r a many at = absurd r
  elements-taken f i n (m ∷ ms) [] rest r a many at = absurd r
  elements-taken f i zero (m ∷ ms) (u ∷ us) rest r a many at = absurd (omega arith)
  elements-taken f i (suc n) (m ∷ ms) (u ∷ us) rest r a many at =
      let (here, later) = first-Indexed info len f.attr.anchor_ident i n at in
      rw
        (
          r.0,
          a.0,
          here,
          elements-taken f (i + 1) n ms us rest r.1 a.1 (omega arith) later,
          elements,
        )
        refl

  anchored-taken :
      (f : Field) (n : ℕ) (front : List UtxoMeta) (us : List UtxoInfo) (rest : List UtxoMeta)
      → Reads info len front us
      → All (Satisfies info len f) us
      → length us ≡ n
      → anchored info len f n (front ++ rest) ≡ ok (us, rest)
  unfolding anchored
  anchored-taken f zero [] [] rest r a many = refl
  anchored-taken f (suc n) [] [] rest r a many = absurd (omega arith)
  anchored-taken f n [] (u ∷ us) rest r a many = absurd r
  anchored-taken f n (m ∷ ms) [] rest r a many = absurd r
  anchored-taken f zero (m ∷ ms) (u ∷ us) rest r a many = absurd (omega arith)
  anchored-taken f (suc n) (m ∷ ms) (u ∷ us) rest r a many =
      rw (r.0, a.0, anchored-taken f n ms us rest r.1 a.1 (omega arith), anchored) refl

  matching-taken :
      (f : Field) (ms : List UtxoMeta) (us : List UtxoInfo)
      → Reads info len ms us
      → All (Satisfies info len f) us
      → (matching info len f ms ≡ ok us) × (drop (length us) ms ≡ [])
  unfolding matching
  matching-taken f [] [] r a = (refl, refl)
  matching-taken f [] (u ∷ us) r a = absurd r
  matching-taken f (m ∷ ms) [] r a = absurd r
  matching-taken f (m ∷ ms) (u ∷ us) r a =
      let (all, none_left) = matching-taken f ms us r.1 a.1 in
      (rw (r.0, all, a.0, matching) refl, none_left)

  length-Reads :
      (front : List UtxoMeta) (us : List UtxoInfo)
      → Reads info len front us
      → length front ≡ length us
  length-Reads [] [] r = refl
  length-Reads [] (u ∷ us) r = absurd r
  length-Reads (m ∷ ms) [] r = absurd r
  length-Reads (m ∷ ms) (u ∷ us) r = ap suc (length-Reads ms us r.1)

  extract_single-taken :
      (f : Field) (front : List UtxoMeta) (us : List UtxoInfo) (rest : List UtxoMeta)
      → Reads info len front us
      → All (Satisfies info len f) us
      → length us ≡ 1
      → extract_single info len f (front ++ rest) ≡ ok (us, rest)
  unfolding extract_single
  extract_single-taken f [] [] rest r a many = absurd (omega arith)
  extract_single-taken f [] (u ∷ us) rest r a many = absurd r
  extract_single-taken f (m ∷ ms) [] rest r a many = absurd r
  extract_single-taken f (m ∷ []) (u ∷ []) rest r a many = rw (r.0, a.0, extract_single) refl
  extract_single-taken f (m ∷ (m' ∷ ms)) (u ∷ []) rest r a many = absurd r.1
  extract_single-taken f (m ∷ ms) (u ∷ (u' ∷ us)) rest r a many = absurd (omega arith)

  extract_optional-taken :
      (f : Field) (front : List UtxoMeta) (us : List UtxoInfo) (rest : List UtxoMeta)
      → Reads info len front us
      → All (Satisfies info len f) us
      → AtMostOne info len f us rest
      → extract_optional info len f (front ++ rest) ≡ ok (us, rest)
  unfolding extract_optional
  extract_optional-taken f [] [] rest r a (inl many) = absurd (omega arith)
  extract_optional-taken f [] [] [] r a (inr (zero_len, skips)) = refl
  extract_optional-taken f [] [] (m ∷ ms) r a (inr (zero_len, (u, (read, differs)))) =
      rw (read, differs, extract_optional) refl
  extract_optional-taken f [] (u ∷ us) rest r a many = absurd r
  extract_optional-taken f (m ∷ ms) [] rest r a many = absurd r
  extract_optional-taken f (m ∷ []) (u ∷ []) rest r a many = rw (r.0, a.0, extract_optional) refl
  extract_optional-taken f (m ∷ (m' ∷ ms)) (u ∷ []) rest r a many = absurd r.1
  extract_optional-taken f (m ∷ ms) (u ∷ (u' ∷ us)) rest r a (inl many) = absurd (omega arith)
  extract_optional-taken f (m ∷ ms) (u ∷ (u' ∷ us)) rest r a (inr (many, skips)) =
      absurd (omega arith)

  extract_vec-taken :
      (k : Option ℕ) (f : Field) (front : List UtxoMeta) (us : List UtxoInfo) (rest : List UtxoMeta)
      → Reads info len front us
      → All (Satisfies info len f) us
      → TakesVec info len k f us rest
      → extract_vec info len k f (front ++ rest) ≡ ok (us, rest)
  unfolding extract_vec
  extract_vec-taken (some ident) f front us rest r a many =
      anchored-taken f (len ident) front us rest r a many
  extract_vec-taken none f front us rest r a (is_rest, empty) =
      let (all, none_left) = matching-taken f front us r a in
      subst (λ k. extract_vec info len none f (front ++ k) ≡ ok (us, k)) (sym empty)
        (subst (λ k. extract_vec info len none f k ≡ ok (us, [])) (sym (append-nil front))
          (asserted f.attr.rest (try_ (matching info len f front) (whole front)) is_rest
            ∙ rw all (ap {B = Extract} (λ k. ok (us, k)) none_left)))
    where
      whole : List UtxoMeta → List UtxoInfo → Extract
      whole ms utxos = ok (utxos, drop (length utxos) ms)

  pub extract_as-taken :
      (k : FieldKind) (f : Field) (front : List UtxoMeta) (us : List UtxoInfo)
      (rest : List UtxoMeta)
      → Reads info len front us
      → All (Satisfies info len f) us
      → TakesAs info len k f us rest
      → extract_as info len k f (front ++ rest) ≡ ok (us, rest)
  unfolding extract_as
  extract_as-taken single f front us rest r a t = extract_single-taken f front us rest r a t
  extract_as-taken optional f front us rest r a t = extract_optional-taken f front us rest r a t
  extract_as-taken (array n) f front us rest r a (many, indexed) =
      let enough : ltb (length (front ++ rest)) n ≡ false =
        ground (arith, length-append front rest, length-Reads front us r, many) in
      rw (enough, extract_as) (elements-taken f 0 n front us rest r a many indexed)
  extract_as-taken vec f front us rest r a t =
      extract_vec-taken f.attr.anchor_ident f front us rest r a t
