-- ===== src/UtxoParser/Check.antt =====
-- saturn-utxo-parser-derive/src/validate.rs: the semantic checks on the fields of a parser.
use saturn_crates.Prelude.{
  ℕ, ◌+◌, List, [], ◌∷◌, Bool, true, false, not, ◌&&◌, ◌||◌, Option, none, some, Result, ok, err,
  try_, ltb, ◌==◌, if◌then◌else◌, length, keep, any,
}
use saturn_crates.UtxoParser.{
  single, array, vec, optional, no_runes, some_runes, any_runes, Expr, UtxoAttr, Field, is_some,
}

-- the messages of the errors, without the place that they point at
pub data CheckError : Type 0 where
  ambiguous_anchor : CheckError
  several_collections : CheckError
  anchored_rest : CheckError
  vec_without_rest : CheckError
  rest_on_non_vec : CheckError
  several_rests : CheckError
  rest_not_last : CheckError
  runes_none_with_rune : CheckError
  runes_some_with_zero : CheckError

abbrev pub Checked : Type 0
Checked = Result CheckError (Unit {0})

abbrev pub is_collection : Field → Bool
is_collection field = elim field.kind [
  | single ↦ false
  | array n ↦ true
  | vec ↦ true
  | optional ↦ false
]

abbrev pub anchored_to : ℕ → Field → Bool
anchored_to ident field = elim field.attr.anchor_ident [ none ↦ false | some i ↦ i == ident ]

-- the tests on the fields with one anchor
abbrev pub check_anchor : List Field → ℕ → Checked
check_anchor fields ident =
    let users = keep (anchored_to ident) fields in
    if any is_collection users && any (λ f. not (is_collection f)) users
    then err ambiguous_anchor
    else if ltb 1 (length (keep is_collection users))
    then err several_collections
    else ok tt

-- The anchors are visited in the order of the fields; the map of the source has no order, so that another
-- anchor's error may come first.
unfoldable pub check_anchors : List Field → List Field → Checked
check_anchors fields [] = ok tt
check_anchors fields (field ∷ rest) =
    let later = check_anchors fields rest in
    elim field.attr.anchor_ident [
      | none ↦ later
      | some ident ↦ try_ (check_anchor fields ident) λ _. later
    ]

abbrev pub check_vec : Field → Checked
check_vec field = elim field.kind [
  | vec ↦ elim field.attr.anchor_ident [
    | some ident ↦ if field.attr.rest then err anchored_rest else ok tt
    | none ↦ if field.attr.rest then ok tt else err vec_without_rest
  ]
  | single ↦ if field.attr.rest then err rest_on_non_vec else ok tt
  | array n ↦ if field.attr.rest then err rest_on_non_vec else ok tt
  | optional ↦ if field.attr.rest then err rest_on_non_vec else ok tt
]

unfoldable pub check_vecs : List Field → Checked
check_vecs [] = ok tt
check_vecs (field ∷ fields) = let later = check_vecs fields in try_ (check_vec field) λ _. later

-- the index of the `rest` field, from index `idx` on
unfoldable pub rest_index : ℕ → Option ℕ → List Field → Result CheckError (Option ℕ)
rest_index idx found [] = ok found
rest_index idx found (field ∷ fields) =
    let other = rest_index (idx + 1) found fields in
    let this = rest_index (idx + 1) (some idx) fields in
    if field.attr.rest then (if is_some found then err several_rests else this) else other

unfoldable pub check_rest : List Field → Checked
unfolding rest_index
check_rest fields = try_ (rest_index 0 none fields) λ found. elim found [
  | none ↦ ok tt
  | some idx ↦ if not (idx + 1 == length fields) then err rest_not_last else ok tt
]

abbrev pub is_zero_literal : Option (Expr ℕ) → Bool
is_zero_literal none = false
is_zero_literal (some e) = e.is_literal && e.evaluated == 0

abbrev pub check_runes : UtxoAttr → Checked
check_runes attr = elim attr.runes [
  | none ↦ ok tt
  | some presence ↦ elim presence [
    | no_runes ↦
        if is_some attr.rune_id_expr || is_some attr.rune_amount_expr
        then err runes_none_with_rune
        else ok tt
    | some_runes ↦ if is_zero_literal attr.rune_amount_expr then err runes_some_with_zero else ok tt
    | any_runes ↦ ok tt
  ]
]

unfoldable pub check_all_runes : List Field → Checked
check_all_runes [] = ok tt
check_all_runes (field ∷ fields) =
    let later = check_all_runes fields in try_ (check_runes field.attr) λ _. later

unfoldable pub check : List Field → Checked
unfolding check_anchors check_vecs check_rest check_all_runes
check fields =
    try_ (check_anchors fields fields)
      λ _. try_ (check_vecs fields) λ _. try_ (check_rest fields) λ _. check_all_runes fields
