-- ===== src/Accounts.antt =====
-- saturn-account-parser/src/lib.rs: the checks on the accounts of an instruction.
--
-- A public key is a number. `find_program_address` and `max_seeds` belong to the crate arch_program, as
-- does the account; what the crate reads of it is the record AccountInfo. The bytes of an account can be
-- borrowed shared or exclusively, as by a RefCell.
pub mod Checks
pub mod ZeroCopy
pub mod Borsh
mod Examples
use saturn_crates.Prelude.{
  ℕ, ◌+◌, ◌/◌, ◌%◌, List, [], ◌∷◌, ◌++◌, Bool, true, false, not, ◌&&◌, Option, none, some, Result,
  ok, err, panicked, try_, ltb, leb, ◌==◌, if◌then◌else◌, length, get_elem?, set, take, drop,
  replicate,
}

pub data Borrow : Type 0 where
  free : Borrow
  shared : Borrow
  exclusive : Borrow

pub record AccountInfo : Type 0 where
  pub key : ℕ
  pub is_signer : Bool
  pub is_writable : Bool
  pub data_address : ℕ
  pub bytes : List ℕ
  pub borrow : Borrow

-- ErrorCode (error.rs), with `offset = 200`
pub data ErrorCode : Type 0 where
  incorrect_is_signer_flag : ErrorCode
  incorrect_is_writable_flag : ErrorCode
  account_not_found : ErrorCode
  invalid_pda : ErrorCode
  invalid_account_key : ErrorCode

abbrev pub code : ErrorCode → ℕ
code incorrect_is_signer_flag = 200
code incorrect_is_writable_flag = 201
code account_not_found = 202
code invalid_pda = 203
code invalid_account_key = 204

-- the values of ProgramError that the crate returns
pub data ProgramError : Type 0 where
  not_enough_account_keys : ProgramError
  invalid_seeds : ProgramError
  invalid_account_data : ProgramError
  account_borrow_failed : ProgramError
  invalid_realloc : ProgramError
  custom : ℕ → ProgramError

-- `==` of two flags
abbrev pub same_flag : Bool → Bool → Bool
same_flag true b = b
same_flag false b = not b

-- `if let Some(expected) = expected { if !(test expected) { return Err(e) } }`
abbrev pub expect :
    {A : Type 0} → Option A → (A → Bool) → ErrorCode → Result ProgramError (Unit {0})
expect none test e = ok tt
expect (some expected) test e = if test expected then ok tt else err (custom (code e))

unfoldable pub get_account :
    List AccountInfo → ℕ → Option Bool → Option Bool → Option ℕ → Result ProgramError AccountInfo
get_account accounts index is_signer is_writable key = elim (get_elem? accounts index) [
  | none ↦ err not_enough_account_keys
  | some acc ↦ try_ (expect is_signer (same_flag acc.is_signer) incorrect_is_signer_flag) λ _.
      try_ (expect is_writable (same_flag acc.is_writable) incorrect_is_writable_flag)
        λ _. try_ (expect key (λ k. acc.key == k) invalid_account_key) λ _. ok acc
]

-- `idx.to_le_bytes()` of a `u16`
abbrev pub le_bytes : ℕ → List ℕ
le_bytes idx = (idx % 256) ∷ ((idx / 256 % 256) ∷ [])

-- The seeds are copied to a buffer of `max_seeds` places, and the index is written behind them.
unfoldable pub seeds_slice : ℕ → List (List ℕ) → ℕ → List (List ℕ)
seeds_slice max_seeds base_seeds idx = take (length base_seeds + 1) (
    set (base_seeds ++ drop (length base_seeds) (replicate max_seeds [])) (length base_seeds)
      (le_bytes idx))

module _ (max_seeds : ℕ) (find_program_address : List (List ℕ) → ℕ → ℕ) where
  unfoldable pub get_pda_account :
      List AccountInfo
      → ℕ
      → Option Bool
      → Option Bool
      → List (List ℕ)
      → ℕ
      → Result ProgramError AccountInfo
  unfolding get_account
  get_pda_account accounts index is_signer is_writable seeds program_id =
      try_ (get_account accounts index is_signer is_writable none) λ acc.
        if ltb max_seeds (length seeds)
        then err invalid_seeds
        else if acc.key == find_program_address seeds program_id
        then ok acc
        else err (custom (code invalid_pda))

  unfoldable pub get_indexed_pda_account :
      List AccountInfo
      → ℕ
      → Option Bool
      → Option Bool
      → List (List ℕ)
      → ℕ
      → ℕ
      → Result ProgramError AccountInfo
  unfolding get_account seeds_slice
  get_indexed_pda_account accounts index is_signer is_writable base_seeds idx program_id =
      try_ (get_account accounts index is_signer is_writable none) λ acc.
        if ltb max_seeds (length base_seeds + 1)
        then err invalid_seeds
        else if acc.key == find_program_address (seeds_slice max_seeds base_seeds idx) program_id
        then ok acc
        else err (custom (code invalid_pda))
