-- ===== src/Accounts/Borsh.antt =====
-- saturn-account-parser/src/codec/borsh.rs: a value in the bytes of an account, as borsh writes it.
--
-- `serialize` and `try_from_slice` belong to the crate borsh: the bytes of a value, and the value of some
-- bytes. A cursor over a slice writes what fits and then fails.
pub mod Laws
use saturn_crates.Prelude.{
  ℕ, List, ◌++◌, Option, none, some, Result, ok, err, panicked, try_, leb, if◌then◌else◌, length,
  take, drop,
}
use saturn_crates.Prelude.Exec.{M, ◌>>=◌, ◌>>◌, lift, get, return}
use saturn_crates.Accounts.{AccountInfo, ProgramError, invalid_account_data}
use saturn_crates.Accounts.ZeroCopy.{try_borrow_data, try_borrow_mut_data}

module _ {S : Type 0} (try_from_slice : List ℕ → Option S) where
  unfoldable pub load : AccountInfo → Result ProgramError S
  load a =
      try_ (try_borrow_data a)
        λ raw. elim (try_from_slice raw) [ none ↦ err invalid_account_data | some s ↦ ok s ]

-- Account<'_, T>: the account, and the value that is kept beside it
pub record Account (S : Type 0) : Type 0 where
  pub account : AccountInfo
  pub value : S

module _ {S : Type 0} (serialize : S → List ℕ) where
  unfoldable pub store : S → M AccountInfo ProgramError (Unit {0})
  store s a = elim (try_borrow_mut_data a) [
    | ok raw ↦
        if leb (length (serialize s)) (length raw)
        then (ok tt, record a { bytes = serialize s ++ drop (length (serialize s)) raw })
        else (err invalid_account_data, record a { bytes = take (length raw) (serialize s) })
    | err e ↦ (err e, a)
    | panicked ↦ (panicked, a)
  ]

  -- Account::init
  unfoldable pub init : S → M AccountInfo ProgramError (Account S)
  unfolding store
  init default_val = do
    store default_val
    account ← get
    return (record { account = account; value = default_val })

  -- the account when an Account is dropped; an error is ignored
  unfoldable pub drop_account : Account S → AccountInfo
  unfolding store
  drop_account held = (store held.value held.account).1
