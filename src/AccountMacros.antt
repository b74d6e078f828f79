-- ===== src/AccountMacros.antt =====
-- saturn-account-macros/src/model.rs: what the derive macro of Accounts collects for a field.
--
-- An identifier is a number, and so is an expression or a type that is compared by its canonical text; 0 is
-- the empty text. Of the base type, what the rules look at is kept.
pub mod Validator
mod Examples
use saturn_crates.Prelude.{ℕ, List, Bool, Option}

pub data FieldKind : Type 0 where
  single : FieldKind
  fixed_slice : FieldKind
  shards : FieldKind
  phantom : FieldKind
  bump : FieldKind

-- the last segment of a type's path
pub data Segment : Type 0 where
  u8 : Segment
  account_loader : Segment
  other_segment : Segment

-- An array has its length, where that is a literal.
pub data BaseTy : Type 0 where
  path : Segment → BaseTy
  array : BaseTy → Option ℕ → BaseTy
  reference : BaseTy → BaseTy
  other_type : BaseTy

-- the expression of a payer: the segments of a path, or something else
pub data Payer : Type 0 where
  expr_path : List ℕ → Payer
  other_expr : Payer

pub record FieldCfg : Type 0 where
  pub ident : ℕ
  pub is_signer : Option Bool
  pub is_writable : Option Bool
  pub address : Option ℕ
  pub seeds : Option ℕ
  pub program_id : Option ℕ
  pub payer : Option Payer
  pub is_shards : Bool
  pub kind : FieldKind
  pub is_zero_copy : Bool
  pub is_init : Bool
  pub is_realloc : Bool
  pub is_init_if_needed : Bool
  pub base_ty : BaseTy
  pub space : Option ℕ
  pub of_type : Option ℕ
  pub owner : Option ℕ
