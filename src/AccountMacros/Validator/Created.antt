-- ===== src/AccountMacros/Validator/Created.antt =====
-- What is known of an account that the generated code creates.
use saturn_crates.Prelude.{
  ℕ, ◌≡◌, ◌⊎◌, refl, List, [], Bool, true, false, not, ◌&&◌, ◌||◌, some, ok, if◌then◌else◌,
  get_elem?, arith, Bool-cases, Option-cases, inl, inr,
}
use mathlib.Core.Path.{subst}
use saturn_crates.Prelude.Exec.{try-ok, unless-ok}
use saturn_crates.AccountMacros.{FieldCfg, Payer}
use saturn_crates.AccountMacros.Validator.{
  is_some, is_none, is_set, needs_init, each, validate_init, validate_realloc, validate_field,
  validate_bump, duplicate_ident_rule, payer_rule, flag_consistency, validate, address_with_seeds,
  seeds_without_program_id, program_id_without_seeds, address_with_init, init_without_payer,
  init_without_program_id, not_writable, realloc_pda_signer, init_not_signer, realloc_without_space,
  realloc_with_init,
}
use saturn_crates.AccountMacros.Validator.Payers.{Paid, each-at, payer_rule-Paid}

-- The account of the field at `i` can be created: it has a payer that stands before it and signs, an owner,
-- no fixed address, it is writable, and either the program signs for it by its seeds, or the account itself
-- signs and is created by `init`.
pub record Creatable (fields : List FieldCfg) (i : ℕ) (f : FieldCfg) : Type 0 where
  pub payer : (p : Payer) × ((f.payer ≡ some p) × Paid fields i p)
  pub owner : is_some f.program_id ≡ true
  pub no_address : is_some f.address ≡ false
  pub writable : is_set f.is_writable ≡ true
  pub signed : (is_some f.seeds ≡ true) ⊎ ((f.is_init ≡ true) × (is_set f.is_signer ≡ true))

then_part : {A : Type 0} (t : Bool) (a b c : A) → t ≡ true → (if t then a else b) ≡ c → a ≡ c
then_part true a b c h e = e
then_part false a b c h e = absurd (cc)

-- what the rules on a single field say of one with `init` or `init_if_needed`
validate_field-init :
    (f : FieldCfg)
    → validate_field f ≡ ok tt
    → needs_init f ≡ true
    → (is_some f.address ≡ false)
      × ((is_some f.payer ≡ true)
          × ((is_some f.program_id ≡ true) × ((is_some f.seeds ≡ true) ⊎ (f.is_init ≡ true))))
unfolding validate_field
validate_field-init f h needs =
    let (a, h1) = unless-ok (is_some f.seeds && is_some f.address) address_with_seeds _ tt h in
    let (b, h2) =
      unless-ok (is_some f.seeds && is_none f.program_id) seeds_without_program_id _ tt h1 in
    let (c, h3) =
      unless-ok (is_some f.program_id && (is_none f.seeds && not (f.is_init || f.is_realloc)))
        program_id_without_seeds _ tt h2 in
    let (d, (init, h4)) = try-ok (validate_init f) _ tt h3 in
    let (e, (realloc, _)) = try-ok (validate_realloc f) _ tt h4 in
    let init0 = then_part (needs_init f) _ (ok tt) (ok d) needs init in
    let (no_address, init1) = unless-ok (is_some f.address) address_with_init _ d init0 in
    let (payer, init2) = unless-ok (is_none f.payer) init_without_payer _ d init1 in
    let (owner, _) = unless-ok (is_none f.program_id) init_without_program_id (ok tt) d init2 in
    let kept : f.is_realloc ≡ false = elim (Bool-cases f.is_realloc) [
      | inr same ↦ same
      | inl grows ↦
          let realloc0 = then_part f.is_realloc _ (ok tt) (ok e) grows realloc in
          let (_, realloc1) = unless-ok (is_none f.space) realloc_without_space _ e realloc0 in
          let (not_init, _) = unless-ok (needs_init f) realloc_with_init (ok tt) e realloc1 in
          absurd (cc (needs, not_init))
    ] in
    (
      no_address,
      (
        positive (is_some f.payer) payer,
        (
          positive (is_some f.program_id) owner,
          signed (is_some f.seeds) (is_some f.program_id) f.is_init f.is_realloc c
              (positive (is_some f.program_id) owner) kept,
        ),
      ),
    )
  where
    positive : (t : Bool) → not t ≡ false → t ≡ true
    positive true h = refl
    positive false h = absurd (cc)

    signed :
        (seeds program init realloc : Bool)
        → (program && (not seeds && not (init || realloc))) ≡ false
        → program ≡ true
        → realloc ≡ false
        → (seeds ≡ true) ⊎ (init ≡ true)
    signed true program init realloc h p r = inl refl
    signed false program true realloc h p r = inr refl
    signed false true false false h p r = absurd (cc)
    signed false false false realloc h p r = absurd (cc)
    signed false true false true h p r = absurd (cc)

-- what the rule on flags says of one
flag_consistency-init :
    (f : FieldCfg)
    → flag_consistency f ≡ ok tt
    → needs_init f ≡ true
    → (is_set f.is_writable ≡ true) × ((is_some f.seeds ≡ true) ⊎ (is_set f.is_signer ≡ true))
unfolding flag_consistency
flag_consistency-init f h needs =
    let (a, h1) =
      unless-ok ((f.is_init || (f.is_init_if_needed || f.is_realloc)) && not (is_set f.is_writable))
        not_writable _ tt h in
    let (b, h2) =
      unless-ok (f.is_realloc && (is_some f.seeds && is_set f.is_signer)) realloc_pda_signer _ tt
        h1 in
    let (c, _) =
      unless-ok (needs_init f && (is_none f.seeds && not (is_set f.is_signer))) init_not_signer
        (ok tt) tt h2 in
    (
      writable f.is_init f.is_init_if_needed f.is_realloc (is_set f.is_writable) needs a,
      signs (needs_init f) (is_some f.seeds) (is_set f.is_signer) needs c,
    )
  where
    writable : (i n r w : Bool) → (i || n) ≡ true → ((i || (n || r)) && not w) ≡ false → w ≡ true
    writable i n r true h e = refl
    writable true n r false h e = absurd (cc)
    writable false true r false h e = absurd (cc)
    writable false false r false h e = absurd (cc)

    signs : (n s g : Bool) → n ≡ true → (n && (not s && not g)) ≡ false → (s ≡ true) ⊎ (g ≡ true)
    signs n true g h e = inl refl
    signs n false true h e = inr refl
    signs true false false h e = absurd (cc)
    signs false false false h e = absurd (cc)

-- Where the rules pass, every account that is created can be: a field that stands before it pays, signs and
-- is writable; it has an owner and no fixed address, is writable, and either the program signs for it by its
-- seeds, or it signs itself and is created by `init`.
pub validate-Creatable :
    (fields : List FieldCfg) (i : ℕ) (f : FieldCfg)
    → validate fields ≡ ok tt
    → get_elem? fields i ≡ some f
    → needs_init f ≡ true
    → Creatable fields i f
unfolding validate
validate-Creatable fields i f h at needs =
    let (_, (syntax, h1)) = try-ok (each validate_field fields) _ tt h in
    let (_, (_, h2)) = try-ok (each validate_bump fields) _ tt h1 in
    let (_, (_, h3)) = try-ok (duplicate_ident_rule [] fields) _ tt h2 in
    let (_, (payers, h4)) = try-ok (payer_rule fields 0 fields) _ tt h3 in
    let (_, (flags, h5)) = try-ok (each flag_consistency fields) _ tt h4 in
    let (no_address, (pays, (owner, by))) =
      validate_field-init f (each-at validate_field fields i f syntax at) needs in
    let (writable, signs) =
      flag_consistency-init f (each-at flag_consistency fields i f flags at) needs in
    record {
      payer = elim (Option-cases f.payer) [
        | inl missing ↦ absurd (cc (rw missing at pays))
        | inr (p, e) ↦ (
          p,
          (
            e,
            subst (λ n. Paid fields n p) (omega arith)
                (payer_rule-Paid fields 0 fields i f p payers at
                  (created f.is_init f.is_init_if_needed f.is_realloc needs) e),
          ),
        )
      ];
      owner = owner;
      no_address = no_address;
      writable = writable;
      signed = elim by [
        | inl seeds ↦ inl seeds
        | inr init ↦ elim signs [ inl seeds ↦ inl seeds | inr signer ↦ inr (init, signer) ]
      ];
    }
  where
    created : (i n r : Bool) → (i || n) ≡ true → (i || (n || r)) ≡ true
    created true n r h = refl
    created false true r h = refl
    created false false r h = absurd (cc)
