-- ===== src/UtxoParser/Parsed.antt =====
-- A parser accepts exactly the inputs that its fields describe.
use mathlib.Core.Path.{subst}
use saturn_crates.Prelude.{
  ℕ, ◌+◌, ◌≡◌, ◌↔◌, ◌⊎◌, refl, sym, List, [], ◌∷◌, false, not, Option, none, some, Result, ok, ltb,
  ◌==◌, length, arith, Bool-cases, inl, inr, ok-injective,
}
use saturn_crates.Prelude.Exec.{try-ok, unless-ok}
use saturn_crates.Transactions.Chain.{UtxoMeta}
use saturn_crates.Transactions.Builder.State.{UtxoInfo}
use saturn_crates.Accounts.{ProgramError}
use saturn_crates.UtxoParser.{
  Field, extract_as, build_extractor, extract_all, has_duplicate, try_utxos,
}
use saturn_crates.UtxoParser.Check.{
  check, check_anchors, check_vecs, check_rest, rest_index, rest_not_last,
}
use saturn_crates.UtxoParser.Front.{Front, TakesAs, extract_as-Front}
use saturn_crates.UtxoParser.Accepted.{extract_as-taken}

-- A `rest` field is the last one.
RestLast : List Field → Type 0
RestLast [] = Unit
RestLast (f ∷ fs) = ((f.attr.rest ≡ false) ⊎ (fs ≡ [])) × RestLast fs

no_further_rest :
    (fs : List Field) (i k : ℕ) (r : Option ℕ)
    → rest_index i (some k) fs ≡ ok r
    → (r ≡ some k) × RestLast fs
unfolding rest_index RestLast
no_further_rest [] i k r h = (sym (ok-injective h), tt)
no_further_rest (f ∷ fs) i k r h = elim (Bool-cases f.attr.rest) [
  | inl again ↦ absurd (ground (arith, h, again))
  | inr closed ↦
      let (same, last) = no_further_rest fs (i + 1) k r (ground (arith, h, closed)) in
      (same, (inl closed, last))
]

rest_index-RestLast :
    (fs : List Field) (i : ℕ) (r : Option ℕ)
    → rest_index i none fs ≡ ok r
    → ((k : ℕ) → r ≡ some k → k + 1 ≡ i + length fs)
    → RestLast fs
unfolding rest_index RestLast
rest_index-RestLast [] i r h last = tt
rest_index-RestLast (f ∷ fs) i r h last = elim (Bool-cases f.attr.rest) [
  | inl is_rest ↦
      let (same, closed) = no_further_rest fs (i + 1) i r (ground (arith, h, is_rest)) in
      (inr (nil fs (omega (arith, last i same))), closed)
  | inr closed ↦ (
    inl closed,
    rest_index-RestLast fs (i + 1) r (ground (arith, h, closed)) (λ k e. omega (arith, last k e)),
  )
]
  where
    nil : (fs : List Field) → length fs ≡ 0 → fs ≡ []
    nil [] h = refl
    nil (f ∷ fs) h = absurd (omega arith)

check_rest-RestLast : (fs : List Field) → check_rest fs ≡ ok tt → RestLast fs
unfolding check_rest
check_rest-RestLast fs h =
    let (found, (indexed, h1)) = try-ok (rest_index 0 none fs) _ tt h in
    rest_index-RestLast fs 0 found indexed (λ k e.
      let (at_end, _) =
        unless-ok (not (k + 1 == length fs)) rest_not_last (ok tt) tt (rw e at h1) in
      ground (arith, at_end))

check-RestLast : (fs : List Field) → check fs ≡ ok tt → RestLast fs
unfolding check
check-RestLast fs h =
    let (a, (_, h1)) = try-ok (check_anchors fs fs) _ tt h in
    let (b, (_, h2)) = try-ok (check_vecs fs) _ tt h1 in
    let (c, (rest, _)) = try-ok (check_rest fs) _ tt h2 in check_rest-RestLast fs rest

module _ (info : UtxoMeta → Result ProgramError UtxoInfo) (len : ℕ → ℕ) where
  -- The inputs are divided in their order among the fields: each takes the UTXOs of the next ones, which
  -- satisfy its predicate and are as many as its kind asks for; no input is left over.
  abbrev pub Divided : List Field → List UtxoMeta → List (List UtxoInfo) → Type 0
  Divided [] ms [] = ms ≡ []
  Divided (f ∷ fs) ms (us ∷ outs) =
      (rest : List UtxoMeta) × (Front info len f ms us rest × TakesAs info len f.kind f us rest)
      × Divided fs rest outs
  Divided [] ms (us ∷ outs) = ⊥
  Divided (f ∷ fs) ms [] = ⊥

  extract_all-Divided :
      (fs : List Field) (ms : List UtxoMeta) (outs : List (List UtxoInfo))
      → RestLast fs
      → extract_all info len fs ms ≡ ok outs
      → Divided fs ms outs
  unfolding extract_all build_extractor RestLast
  extract_all-Divided [] [] outs last h = subst (Divided [] []) (ok-injective h) refl
  extract_all-Divided [] (m ∷ ms) outs last h =
      let (none_left, _) = unless-ok (ltb 0 (length (m ∷ ms))) _ (ok []) outs h in
      absurd (ground (arith, none_left))
  extract_all-Divided (f ∷ fs) ms outs last h =
      let (taken, (here, h1)) = try-ok (extract_as info len f.kind f ms) _ outs h in
      let (later, (there, h2)) = try-ok (extract_all info len fs taken.1) _ outs h1 in
      let divided = extract_all-Divided fs taken.1 later last.1 there in
      subst (Divided (f ∷ fs) ms) (ok-injective h2) (
        taken.1,
        extract_as-Front info len f.kind f ms taken.0 taken.1 here
            (at_end fs taken.1 later last.0 divided),
        divided,
      )
    where
      at_end :
          (fs : List Field) (rest : List UtxoMeta) (later : List (List UtxoInfo))
          → (f.attr.rest ≡ false) ⊎ (fs ≡ [])
          → Divided fs rest later
          → (f.attr.rest ≡ false) ⊎ (rest ≡ [])
      at_end fs rest later (inl closed) d = inl closed
      at_end [] rest [] (inr e) d = inr d
      at_end [] rest (us ∷ outs) (inr e) d = absurd d
      at_end (g ∷ fs) rest later (inr e) d = absurd (cc e)

  Divided-extract_all :
      (fs : List Field) (ms : List UtxoMeta) (outs : List (List UtxoInfo))
      → Divided fs ms outs
      → extract_all info len fs ms ≡ ok outs
  unfolding extract_all build_extractor
  Divided-extract_all [] ms [] d = rw d refl
  Divided-extract_all [] ms (us ∷ outs) d = absurd d
  Divided-extract_all (f ∷ fs) ms [] d = absurd d
  Divided-extract_all (f ∷ fs) ms (us ∷ outs) (rest, ((front, e, (r, a)), takes), d) =
      let taken = extract_as-taken info len f.kind f front us rest r a takes in
      let here : extract_as info len f.kind f ms ≡ ok (us, rest) =
        subst (λ k. extract_as info len f.kind f k ≡ ok (us, rest)) (sym e) taken in
      rw (here, Divided-extract_all fs rest outs d, extract_all) refl

  -- (The checks of the macro pass.) A parser accepts a list of inputs, and gives the UTXOs of its fields,
  -- exactly if no input stands there twice and the inputs are divided in their order among the fields: each
  -- field takes the UTXOs of the next inputs, which satisfy its predicate and are as many as its kind asks
  -- for, an optional one is left out only before an input that does not satisfy it, and none is left over.
  pub try_utxos_iff :
      (fs : List Field) (ms : List UtxoMeta) (outs : List (List UtxoInfo))
      → check fs ≡ ok tt
      → (try_utxos info len fs ms ≡ ok outs) ↔ ((has_duplicate ms ≡ false) × Divided fs ms outs)
  unfolding try_utxos
  try_utxos_iff fs ms outs checked = (
    (λ h.
        let (distinct, h1) = unless-ok (has_duplicate ms) _ (extract_all info len fs ms) outs h in
        (distinct, extract_all-Divided fs ms outs (check-RestLast fs checked) h1)),
    (λ (distinct, d). rw distinct (Divided-extract_all fs ms outs d)),
  )
