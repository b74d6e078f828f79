-- ===== src/AccountMacros/Validator.antt =====
-- saturn-account-macros/src/validator.rs, with validator/syntax.rs, validator/bump.rs and
-- validator/rules.rs: the rules for the fields of an Accounts struct.
pub mod Payers
pub mod Created
use saturn_crates.Prelude.{
  ℕ, ◌+◌, List, [], ◌∷◌, Bool, true, false, not, ◌&&◌, ◌||◌, Option, none, some, Result, ok, err,
  panicked, try_, leb, ◌==◌, if◌then◌else◌, any,
}
use saturn_crates.AccountMacros.{
  FieldKind, single, fixed_slice, shards, phantom, bump, Segment, u8, account_loader, other_segment,
  BaseTy, path, array, reference, other_type, Payer, expr_path, other_expr, FieldCfg,
}

-- the messages of the errors
pub data SyntaxError : Type 0 where
  address_with_seeds : SyntaxError
  seeds_without_program_id : SyntaxError
  program_id_without_seeds : SyntaxError
  address_with_init : SyntaxError
  init_without_payer : SyntaxError
  init_without_program_id : SyntaxError
  realloc_without_space : SyntaxError
  realloc_with_init : SyntaxError
  shards_pda_signer : SyntaxError
  loader_without_zero_copy : SyntaxError
  bump_type : SyntaxError
  bump_without_seeds : SyntaxError
  bump_without_program_id : SyntaxError
  bump_with_flags : SyntaxError
  duplicate_ident : SyntaxError
  payer_not_ident : SyntaxError
  payer_empty : SyntaxError
  payer_unknown : SyntaxError
  payer_not_signer : SyntaxError
  payer_not_writable : SyntaxError
  payer_too_late : SyntaxError
  not_writable : SyntaxError
  realloc_pda_signer : SyntaxError
  init_not_signer : SyntaxError
  zero_copy_without_of : SyntaxError
  of_without_zero_copy : SyntaxError
  duplicate_pda : SyntaxError
  duplicate_bump : SyntaxError
  bump_without_pda : SyntaxError

abbrev pub Checked : Type 0
Checked = Result SyntaxError (Unit {0})

abbrev pub is_some : {A : Type 0} → Option A → Bool
is_some none = false
is_some (some a) = true

abbrev pub is_none : {A : Type 0} → Option A → Bool
is_none o = not (is_some o)

-- `flag.unwrap_or(false)`
abbrev pub is_set : Option Bool → Bool
is_set none = false
is_set (some b) = b

-- `if test { return Err(e) }`
abbrev pub refuse : Bool → SyntaxError → Checked → Checked
refuse t e rest = if t then err e else rest

abbrev pub each : (FieldCfg → Checked) → List FieldCfg → Checked
each rule [] = ok tt
each rule (f ∷ fs) = let later = each rule fs in try_ (rule f) λ _. later

abbrev pub is_single : FieldKind → Bool
is_single kind = elim kind [
  | single ↦ true
  | fixed_slice ↦ false
  | shards ↦ false
  | phantom ↦ false
  | bump ↦ false
]

abbrev pub is_bump : FieldKind → Bool
is_bump kind = elim kind [
  | single ↦ false
  | fixed_slice ↦ false
  | shards ↦ false
  | phantom ↦ false
  | bump ↦ true
]

abbrev pub is_segment_loader : Segment → Bool
is_segment_loader s = elim s [ u8 ↦ false | account_loader ↦ true | other_segment ↦ false ]

abbrev pub is_segment_u8 : Segment → Bool
is_segment_u8 s = elim s [ u8 ↦ true | account_loader ↦ false | other_segment ↦ false ]

abbrev pub is_account_loader : BaseTy → Bool
is_account_loader (path s) = is_segment_loader s
is_account_loader (reference (path s)) = is_segment_loader s
is_account_loader (reference (array t n)) = false
is_account_loader (reference (reference t)) = false
is_account_loader (reference other_type) = false
is_account_loader (array t n) = false
is_account_loader other_type = false

abbrev pub needs_init : FieldCfg → Bool
needs_init cfg = cfg.is_init || cfg.is_init_if_needed

-- the rules that a field with `init` or `init_if_needed` has to meet
abbrev pub validate_init : FieldCfg → Checked
validate_init cfg =
    if needs_init cfg
    then (refuse (is_some cfg.address) address_with_init (
        refuse (is_none cfg.payer) init_without_payer
          (refuse (is_none cfg.program_id) init_without_program_id (ok tt))))
    else ok tt

abbrev pub validate_realloc : FieldCfg → Checked
validate_realloc cfg =
    if cfg.is_realloc
    then refuse (is_none cfg.space) realloc_without_space
        (refuse (needs_init cfg) realloc_with_init (ok tt))
    else ok tt

-- The second test of `realloc` with `init` is behind the first, so it never fails.
unfoldable pub validate_field : FieldCfg → Checked
validate_field cfg = refuse (is_some cfg.seeds && is_some cfg.address) address_with_seeds (
    refuse (is_some cfg.seeds && is_none cfg.program_id) seeds_without_program_id (
      refuse (is_some cfg.program_id && (is_none cfg.seeds && not (cfg.is_init || cfg.is_realloc)))
        program_id_without_seeds
        (try_ (validate_init cfg) λ _. try_ (validate_realloc cfg) λ _.
          refuse (cfg.is_shards && (is_some cfg.seeds && is_set cfg.is_signer)) shards_pda_signer (
            refuse (is_single cfg.kind && (not cfg.is_zero_copy && is_account_loader cfg.base_ty))
              loader_without_zero_copy (ok tt)))))

abbrev pub is_len_one : Option ℕ → Bool
is_len_one none = false
is_len_one (some n) = n == 1

abbrev pub is_u8 : BaseTy → Bool
is_u8 (path s) = is_segment_u8 s
is_u8 (array t n) = false
is_u8 (reference t) = false
is_u8 other_type = false

abbrev pub is_u8_array1 : BaseTy → Bool
is_u8_array1 (array t n) = is_u8 t && is_len_one n
is_u8_array1 (path s) = false
is_u8_array1 (reference t) = false
is_u8_array1 other_type = false

abbrev pub is_ref_u8_array1 : BaseTy → Bool
is_ref_u8_array1 (reference t) = is_u8_array1 t
is_ref_u8_array1 (path s) = false
is_ref_u8_array1 (array t n) = false
is_ref_u8_array1 other_type = false

unfoldable pub validate_bump : FieldCfg → Checked
validate_bump cfg =
    if not (is_bump cfg.kind)
    then ok tt
    else (refuse
        (not (is_u8 cfg.base_ty || (is_u8_array1 cfg.base_ty || is_ref_u8_array1 cfg.base_ty)))
        bump_type
        (refuse (is_none cfg.seeds) bump_without_seeds (
          refuse (is_none cfg.program_id) bump_without_program_id (
            refuse
              (is_some cfg.is_signer
                || (is_some cfg.is_writable
                    || (cfg.is_init
                        || (cfg.is_init_if_needed
                            || (cfg.is_realloc || (cfg.is_zero_copy || cfg.is_shards))))))
              bump_with_flags (ok tt)))))

-- DuplicateIdentRule; `seen` has the identifiers before
unfoldable pub duplicate_ident_rule : List ℕ → List FieldCfg → Checked
duplicate_ident_rule seen [] = ok tt
duplicate_ident_rule seen (f ∷ fs) =
    let later = duplicate_ident_rule (f.ident ∷ seen) fs in
    refuse (any (λ i. i == f.ident) seen) duplicate_ident later

-- `by_ident` of the context: the first field with an identifier, and its position, from `idx` on
unfoldable pub by_ident : ℕ → ℕ → List FieldCfg → Option (ℕ × FieldCfg)
by_ident name idx [] = none
by_ident name idx (f ∷ fs) =
    let later = by_ident name (idx + 1) fs in if f.ident == name then some (idx, f) else later

-- the tests on the payer of the field at `field_idx`
unfoldable pub check_payer : List FieldCfg → ℕ → Payer → Checked
unfolding by_ident
check_payer fields field_idx other_expr = err payer_not_ident
check_payer fields field_idx (expr_path []) = err payer_empty
check_payer fields field_idx (expr_path (ident ∷ rest)) = elim (by_ident ident 0 fields) [
  | none ↦ err payer_unknown
  | some found ↦
      let (payer_idx, payer_cfg) = found in
      refuse (not (is_set payer_cfg.is_signer)) payer_not_signer (
        refuse (not (is_set payer_cfg.is_writable)) payer_not_writable
          (refuse (leb field_idx payer_idx) payer_too_late (ok tt)))
]

abbrev pub check_field_payer : List FieldCfg → ℕ → FieldCfg → Checked
check_field_payer all idx f =
    if f.is_init || (f.is_init_if_needed || f.is_realloc)
    then elim f.payer [ none ↦ ok tt | some payer ↦ check_payer all idx payer ]
    else ok tt

-- PayerRule, over the fields from `idx` on
unfoldable pub payer_rule : List FieldCfg → ℕ → List FieldCfg → Checked
unfolding check_payer
payer_rule all idx [] = ok tt
payer_rule all idx (f ∷ fs) =
    let later = payer_rule all (idx + 1) fs in try_ (check_field_payer all idx f) λ _. later

-- FlagConsistencyRule
unfoldable pub flag_consistency : FieldCfg → Checked
flag_consistency f =
    refuse ((f.is_init || (f.is_init_if_needed || f.is_realloc)) && not (is_set f.is_writable))
      not_writable
      (refuse (f.is_realloc && (is_some f.seeds && is_set f.is_signer)) realloc_pda_signer (
        refuse (needs_init f && (is_none f.seeds && not (is_set f.is_signer))) init_not_signer
          (ok tt)))

-- ZeroCopyRule
unfoldable pub zero_copy : FieldCfg → Checked
zero_copy f = refuse (f.is_zero_copy && is_none f.of_type) zero_copy_without_of (
    refuse (is_single f.kind && (not f.is_zero_copy && is_some f.of_type)) of_without_zero_copy
      (ok tt))

abbrev pub text : Option ℕ → ℕ
text none = 0
text (some t) = t

abbrev pub same_key : ℕ × ℕ → ℕ × ℕ → Bool
same_key a b = (a.0 == b.0) && (a.1 == b.1)

-- the first loop of PdaBumpRule, which collects the keys of the PDAs
unfoldable pub collect_pdas : List (ℕ × ℕ) → List FieldCfg → Result SyntaxError (List (ℕ × ℕ))
collect_pdas pda_keys [] = ok pda_keys
collect_pdas pda_keys (f ∷ fs) =
    let same = collect_pdas pda_keys fs in
    let more = collect_pdas ((text f.seeds, text f.program_id) ∷ pda_keys) fs in
    if is_some f.seeds && not (is_bump f.kind)
    then (if any (same_key (text f.seeds, text f.program_id)) pda_keys
        then err duplicate_pda
        else more)
    else same

-- the second loop; the rules before it have tested that a bump has seeds and a program id
unfoldable pub check_bumps : List (ℕ × ℕ) → List (ℕ × ℕ) → List FieldCfg → Checked
check_bumps pda_keys bump_keys [] = ok tt
check_bumps pda_keys bump_keys (f ∷ fs) =
    let same = check_bumps pda_keys bump_keys fs in
    let more = check_bumps pda_keys ((text f.seeds, text f.program_id) ∷ bump_keys) fs in
    if is_bump f.kind
    then (if is_some f.seeds && is_some f.program_id
        then (refuse (any (same_key (text f.seeds, text f.program_id)) bump_keys) duplicate_bump (
            refuse (not (any (same_key (text f.seeds, text f.program_id)) pda_keys))
              bump_without_pda more))
        else panicked)
    else same

unfoldable pub pda_bump_rule : List FieldCfg → Checked
unfolding collect_pdas check_bumps
pda_bump_rule fields = try_ (collect_pdas [] fields) λ pda_keys. check_bumps pda_keys [] fields

-- the rules in the order of ALL_VALIDATORS
unfoldable pub validate : List FieldCfg → Checked
unfolding validate_field validate_bump duplicate_ident_rule payer_rule flag_consistency zero_copy
    pda_bump_rule
validate fields = try_ (each validate_field fields) λ _. try_ (each validate_bump fields) λ _.
    try_ (duplicate_ident_rule [] fields) λ _. try_ (payer_rule fields 0 fields) λ _.
      try_ (each flag_consistency fields)
        λ _. try_ (each zero_copy fields) λ _. pda_bump_rule fields
