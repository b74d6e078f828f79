-- ===== src/UtxoParser.antt =====
-- The parsers that saturn-utxo-parser-derive writes: `try_utxos` (src/codegen), as a function of the
-- description of the fields (src/ir.rs) that the macro makes of a struct.
--
-- An expression of an attribute is the number that it stands for, and whether it is a literal. The cursor
-- `idx` of the generated code is the list of the UTXOs from it on. `info` is `meta_to_info`, and `len` gives
-- the length of a field of the accounts struct. The instruction that an anchor makes is dropped by the code.
pub mod Check
pub mod Front
pub mod Accepted
pub mod Parsed
mod Examples
use saturn_crates.Prelude.{
  ℕ, zero, suc, ◌+◌, ◌%◌, ◌≡◌, List, [], ◌∷◌, Bool, true, false, not, ◌&&◌, ◌||◌, Option, none,
  some, Result, ok, err, panicked, try_, ltb, ◌==◌, if◌then◌else◌, length, drop, any,
}
use saturn_crates.Prelude.Sort.{sum_by}
use saturn_crates.SafeMath.{u128_mod}
use saturn_crates.Collections.FixedSet
use saturn_crates.Transactions.Chain.{UtxoMeta, outpoint_eq, RuneId}
use saturn_crates.Transactions.Runes.{rune_amount, contains_exact_rune}
use saturn_crates.Transactions.Builder.State.{UtxoInfo}
use saturn_crates.Accounts.{ProgramError, custom}

pub data FieldKind : Type 0 where
  single : FieldKind
  array : ℕ → FieldKind
  vec : FieldKind
  optional : FieldKind

pub data RunesPresence : Type 0 where
  no_runes : RunesPresence
  some_runes : RunesPresence
  any_runes : RunesPresence

pub record Expr (A : Type 0) : Type 0 where
  pub evaluated : A
  pub is_literal : Bool

-- Fields of the accounts struct have numbers as names.
pub record UtxoAttr : Type 0 where
  pub value : Option (Expr ℕ)
  pub runes : Option RunesPresence
  pub rune_id_expr : Option (Expr RuneId)
  pub rune_amount_expr : Option (Expr ℕ)
  pub rest : Bool
  pub anchor_ident : Option ℕ

pub record Field : Type 0 where
  pub kind : FieldKind
  pub attr : UtxoAttr

-- ErrorCode (saturn-utxo-parser/src/error.rs), with `offset = 100`
pub data ErrorCode : Type 0 where
  missing_required_utxo : ErrorCode
  unexpected_extra_utxos : ErrorCode
  invalid_utxo_value : ErrorCode
  invalid_runes_presence : ErrorCode
  invalid_rune_id : ErrorCode
  invalid_rune_amount : ErrorCode
  duplicate_utxo_meta : ErrorCode
  strict_order_mismatch : ErrorCode

abbrev pub code : ErrorCode → ℕ
code missing_required_utxo = 100
code unexpected_extra_utxos = 101
code invalid_utxo_value = 102
code invalid_runes_presence = 103
code invalid_rune_id = 104
code invalid_rune_amount = 105
code duplicate_utxo_meta = 106
code strict_order_mismatch = 107

abbrev pub fails : {A : Type 0} → ErrorCode → Result ProgramError A
fails e = err (custom (code e))

abbrev pub is_some : {A : Type 0} → Option A → Bool
is_some none = false
is_some (some a) = true

-- the methods of UtxoInfo that a predicate calls
abbrev pub rune_entry_count : UtxoInfo → ℕ
rune_entry_count utxo = utxo.runes.len

abbrev pub total_rune_amount : UtxoInfo → ℕ
total_rune_amount utxo = sum_by (λ r. r.amount) (FixedSet.as_slice utxo.runes) % u128_mod

-- the parts of the predicate; the amount is cast to a `u128`
abbrev pub value_part : Option (Expr ℕ) → UtxoInfo → Bool
value_part none utxo = true
value_part (some value) utxo = utxo.value == value.evaluated

abbrev pub runes_part : Option RunesPresence → UtxoInfo → Bool
runes_part none utxo = true
runes_part (some no_runes) utxo = rune_entry_count utxo == 0
runes_part (some some_runes) utxo = ltb 0 (rune_entry_count utxo)
runes_part (some any_runes) utxo = true

abbrev pub rune_part : Option (Expr RuneId) → Option (Expr ℕ) → UtxoInfo → Bool
rune_part (some id) (some amount) utxo =
    contains_exact_rune utxo.runes id.evaluated (amount.evaluated % u128_mod)
rune_part (some id) none utxo = is_some (rune_amount utxo.runes id.evaluated)
rune_part none (some amount) utxo = total_rune_amount utxo == (amount.evaluated % u128_mod)
rune_part none none utxo = true

unfoldable pub build : UtxoAttr → UtxoInfo → Bool
build attr utxo =
    value_part attr.value utxo
    && (runes_part attr.runes utxo && rune_part attr.rune_id_expr attr.rune_amount_expr utxo)

-- An anchor without a constraint on the runes asks for none.
unfoldable pub build_predicate_with_anchor_logic : Field → UtxoInfo → Bool
unfolding build
build_predicate_with_anchor_logic field = build (
    if is_some field.attr.anchor_ident && not (is_some field.attr.runes)
    then record field.attr { runes = some no_runes }
    else field.attr)

unfoldable pub base_error_variant : UtxoAttr → ErrorCode
base_error_variant attr =
    if is_some attr.anchor_ident && not (is_some attr.runes)
    then invalid_runes_presence
    else if is_some attr.rune_id_expr
    then invalid_rune_id
    else if is_some attr.rune_amount_expr
    then invalid_rune_amount
    else if is_some attr.runes
    then invalid_runes_presence
    else if is_some attr.value
    then invalid_utxo_value
    else missing_required_utxo

-- the error of a scalar field whose UTXO does not match
unfoldable pub mismatch : UtxoAttr → UtxoInfo → ErrorCode
unfolding base_error_variant
mismatch attr utxo = elim attr.rune_id_expr [
  | some id ↦ elim attr.rune_amount_expr [
    | some amount ↦
        if is_some (rune_amount utxo.runes id.evaluated)
        then invalid_rune_amount
        else invalid_rune_id
    | none ↦ base_error_variant attr
  ]
  | none ↦
      if not (is_some attr.value)
        && (not (is_some attr.runes) && not (is_some attr.rune_amount_expr))
      then strict_order_mismatch
      else base_error_variant attr
]

-- two equal UTXOs among the inputs
unfoldable pub has_duplicate : List UtxoMeta → Bool
has_duplicate [] = false
has_duplicate (m ∷ ms) = any (outpoint_eq m) ms || has_duplicate ms

abbrev pub Extract : Type 0
Extract = Result ProgramError (List UtxoInfo × List UtxoMeta)

module _ (info : UtxoMeta → Result ProgramError UtxoInfo) (len : ℕ → ℕ) where
  -- `accounts.<anchor>[i]`
  abbrev pub anchor_at : Option ℕ → ℕ → Result ProgramError (Unit {0})
  anchor_at none i = ok tt
  anchor_at (some ident) i = if ltb i (len ident) then ok tt else panicked

  unfoldable pub extract_single : Field → List UtxoMeta → Extract
  unfolding build_predicate_with_anchor_logic mismatch
  extract_single field [] = fails missing_required_utxo
  extract_single field (m ∷ ms) = try_ (info m) λ utxo.
      if build_predicate_with_anchor_logic field utxo
      then ok (utxo ∷ [], ms)
      else fails (mismatch field.attr utxo)

  unfoldable pub extract_optional : Field → List UtxoMeta → Extract
  unfolding build_predicate_with_anchor_logic
  extract_optional field [] = ok ([], [])
  extract_optional field (m ∷ ms) = try_ (info m) λ utxo.
      if build_predicate_with_anchor_logic field utxo then ok (utxo ∷ [], ms) else ok ([], m ∷ ms)

  -- the blocks of an array from element `i` on
  unfoldable pub elements : Field → ℕ → ℕ → List UtxoMeta → Extract
  unfolding build_predicate_with_anchor_logic base_error_variant
  elements field i zero ms = ok ([], ms)
  elements field i (suc n) [] = panicked
  elements field i (suc n) (m ∷ ms) =
      let later = elements field (i + 1) n ms in
      try_ (info m) λ utxo.
        if not (build_predicate_with_anchor_logic field utxo)
        then fails (base_error_variant field.attr)
        else (try_ (anchor_at field.attr.anchor_ident i)
            λ _. try_ later λ (utxos, remaining). ok (utxo ∷ utxos, remaining))

  -- the loop of an anchored vector, over `n` more accounts
  unfoldable pub anchored : Field → ℕ → List UtxoMeta → Extract
  unfolding build_predicate_with_anchor_logic base_error_variant
  anchored field zero ms = ok ([], ms)
  anchored field (suc n) [] = fails missing_required_utxo
  anchored field (suc n) (m ∷ ms) =
      let later = anchored field n ms in
      try_ (info m) λ utxo.
        if not (build_predicate_with_anchor_logic field utxo)
        then fails (base_error_variant field.attr)
        else (try_ later λ (utxos, remaining). ok (utxo ∷ utxos, remaining))

  -- the loop of a `rest` vector
  unfoldable pub matching : Field → List UtxoMeta → Result ProgramError (List UtxoInfo)
  unfolding build_predicate_with_anchor_logic
  matching field [] = ok []
  matching field (m ∷ ms) =
      let later = matching field ms in
      try_ (info m) λ utxo.
        try_ later
          λ utxos. ok (if build_predicate_with_anchor_logic field utxo then utxo ∷ utxos else utxos)

  -- For a vector that is neither `rest` nor anchored the macro writes a compile error.
  unfoldable pub extract_vec : Option ℕ → Field → List UtxoMeta → Extract
  unfolding anchored matching
  extract_vec (some ident) field ms = anchored field (len ident) ms
  extract_vec none field ms =
      if field.attr.rest
      then (try_ (matching field ms) λ utxos. ok (utxos, drop (length utxos) ms))
      else panicked

  unfoldable pub extract_as : FieldKind → Field → List UtxoMeta → Extract
  unfolding extract_single extract_optional elements extract_vec
  extract_as single field ms = extract_single field ms
  extract_as optional field ms = extract_optional field ms
  extract_as (array n) field ms =
      if ltb (length ms) n then fails missing_required_utxo else elements field 0 n ms
  extract_as vec field ms = extract_vec field.attr.anchor_ident field ms

  unfoldable pub build_extractor : Field → List UtxoMeta → Extract
  unfolding extract_as
  build_extractor field = extract_as field.kind field

  -- the extractors in the order of the fields, and the test for inputs that are left over
  unfoldable pub extract_all :
      List Field → List UtxoMeta → Result ProgramError (List (List UtxoInfo))
  unfolding build_extractor
  extract_all [] ms = if ltb 0 (length ms) then fails unexpected_extra_utxos else ok []
  extract_all (field ∷ fields) ms =
      try_ (build_extractor field ms)
        λ (utxos, remaining). try_ (extract_all fields remaining) λ later. ok (utxos ∷ later)

  unfoldable pub try_utxos : List Field → List UtxoMeta → Result ProgramError (List (List UtxoInfo))
  unfolding has_duplicate extract_all
  try_utxos fields utxos =
      if has_duplicate utxos then fails duplicate_utxo_meta else extract_all fields utxos
