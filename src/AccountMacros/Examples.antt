-- ===== src/AccountMacros/Examples.antt =====
-- An account that is created, and the field that pays for it.
use saturn_crates.Prelude.{◌≡◌, refl, List, [], ◌∷◌, true, false, some, none, err}
use saturn_crates.AccountMacros.{FieldCfg, single, path, other_segment, expr_path}
use saturn_crates.AccountMacros.Validator.{
  validate, validate_field, validate_bump, duplicate_ident_rule, payer_rule, check_payer, by_ident,
  flag_consistency, zero_copy, pda_bump_rule, collect_pdas, check_bumps, program_id_without_seeds,
}
use saturn_crates.AccountMacros.Validator.Created.{Creatable, validate-Creatable}

abbrev funder : FieldCfg
funder = record {
  ident = 1;
  is_signer = some true;
  is_writable = some true;
  address = none;
  seeds = none;
  program_id = none;
  payer = none;
  is_shards = false;
  kind = single;
  is_zero_copy = false;
  is_init = false;
  is_realloc = false;
  is_init_if_needed = false;
  base_ty = path other_segment;
  space = none;
  of_type = none;
  owner = none;
}

abbrev vault : FieldCfg
vault = record funder {
  ident = 2;
  program_id = some 9;
  payer = some (expr_path (1 ∷ []));
  is_init = true;
}

abbrev fields : List FieldCfg
fields = funder ∷ (vault ∷ [])

validate-Creatable_example : Creatable fields 1 vault
unfolding validate validate_field validate_bump duplicate_ident_rule payer_rule check_payer by_ident
    flag_consistency zero_copy pda_bump_rule collect_pdas check_bumps
validate-Creatable_example = validate-Creatable fields 1 vault refl refl refl

-- The same account with `init_if_needed` is refused.
if_needed :
    validate_field (record vault { is_init = false; is_init_if_needed = true })
    ≡ err program_id_without_seeds
unfolding validate_field
if_needed = refl
