-- ===== src/Accounts/ZeroCopy.antt =====
-- saturn-account-parser/src/codec/zero_copy.rs: a struct in the bytes of an account, behind a discriminator.
--
-- `Pod` is what bytemuck and the type give: the size and the alignment of the struct, its bytes, and the
-- struct of some bytes. `realloc` belongs to arch_program. A borrow that a function takes ends with it.
pub mod Laws
use saturn_crates.Prelude.{
  ℕ, zero, suc, ◌+◌, ◌%◌, ◌≡◌, List, [], ◌∷◌, ◌++◌, Bool, true, false, not, ◌&&◌, Result, ok, err,
  panicked, try_, ltb, ◌==◌, if◌then◌else◌, length, take, drop, replicate,
}
use saturn_crates.Prelude.Exec.{M, ◌>>=◌, ◌>>◌, lift, get, return}
use saturn_crates.Accounts.{
  AccountInfo, Borrow, free, shared, exclusive, ProgramError, invalid_account_data,
  account_borrow_failed, custom, code, incorrect_is_writable_flag,
}

abbrev pub discriminator_len : ℕ
discriminator_len = 8

pub record Pod (S : Type 0) : Type 0 where
  pub size : ℕ
  pub align : ℕ
  pub bytes_of : S → List ℕ
  pub from_bytes : List ℕ → S
  pub discriminator : List ℕ

abbrev pub bytes_eq : List ℕ → List ℕ → Bool
bytes_eq [] [] = true
bytes_eq (x ∷ xs) (y ∷ ys) = (x == y) && bytes_eq xs ys
bytes_eq xs ys = false

abbrev pub try_borrow_data : AccountInfo → Result ProgramError (List ℕ)
try_borrow_data a = elim a.borrow [
  | free ↦ ok a.bytes
  | shared ↦ ok a.bytes
  | exclusive ↦ err account_borrow_failed
]

abbrev pub try_borrow_mut_data : AccountInfo → Result ProgramError (List ℕ)
try_borrow_mut_data a = elim a.borrow [
  | free ↦ ok a.bytes
  | shared ↦ err account_borrow_failed
  | exclusive ↦ err account_borrow_failed
]

module _ {S : Type 0} (pod : Pod S) where
  -- the two tests that all four functions make
  abbrev pub check_data : List ℕ → Result ProgramError (Unit {0})
  check_data raw =
      if ltb (length raw) (discriminator_len + pod.size)
      then err invalid_account_data
      else if not (bytes_eq (take discriminator_len raw) pod.discriminator)
      then err invalid_account_data
      else ok tt

  -- `data[DISCRIMINATOR_LEN..DISCRIMINATOR_LEN + size_of::<S>()]`, and a write to it
  abbrev pub struct_bytes : List ℕ → List ℕ
  struct_bytes raw = take pod.size (drop discriminator_len raw)

  abbrev pub with_struct_bytes : List ℕ → List ℕ → List ℕ
  with_struct_bytes raw bytes =
      take discriminator_len raw ++ (bytes ++ drop pod.size (drop discriminator_len raw))

  abbrev pub check_alignment : AccountInfo → Result ProgramError (Unit {0})
  check_alignment a =
      if (a.data_address + discriminator_len) % pod.align == 0
      then ok tt
      else err invalid_account_data

  -- bytemuck's `from_bytes`, which panics at bytes that are not aligned
  abbrev pub aligned_struct : AccountInfo → List ℕ → Result ProgramError S
  aligned_struct a raw = elim (check_alignment a) [
    | ok _ ↦ ok (pod.from_bytes (struct_bytes raw))
    | err e ↦ panicked
    | panicked ↦ panicked
  ]

  unfoldable pub load_copy : AccountInfo → Result ProgramError S
  load_copy a = try_ (try_borrow_data a) λ raw. try_ (check_data raw) λ _. aligned_struct a raw

  unfoldable pub store_copy : S → M AccountInfo ProgramError (Unit {0})
  store_copy s a = elim (try_ (try_borrow_mut_data a) λ raw. try_ (check_data raw) λ _. ok raw) [
    | ok raw ↦ (ok tt, record a { bytes = with_struct_bytes raw (pod.bytes_of s) })
    | err e ↦ (err e, a)
    | panicked ↦ (panicked, a)
  ]

  unfoldable pub load_ref : AccountInfo → Result ProgramError S
  load_ref a = try_ (try_borrow_data a) λ raw.
      try_ (check_data raw)
        λ _. try_ (check_alignment a) λ _. ok (pod.from_bytes (struct_bytes raw))

  unfoldable pub load_mut_ref : AccountInfo → Result ProgramError S
  load_mut_ref a =
      if not a.is_writable
      then err (custom (code incorrect_is_writable_flag))
      else (try_ (try_borrow_mut_data a) λ raw.
          try_ (check_data raw)
            λ _. try_ (check_alignment a) λ _. ok (pod.from_bytes (struct_bytes raw)))

  -- `let mut s = load_mut_ref(account)?; f(&mut s)`: what is written to the struct is in the bytes.
  unfoldable pub with_mut_ref : {A : Type 0} → (S → A × S) → M AccountInfo ProgramError A
  unfolding load_mut_ref
  with_mut_ref f a = elim (load_mut_ref a) [
    | ok s ↦
        let (r, s') = f s in
        (ok r, record a { bytes = with_struct_bytes a.bytes (pod.bytes_of s') })
    | err e ↦ (err e, a)
    | panicked ↦ (panicked, a)
  ]

  module _ (realloc : ℕ → M AccountInfo ProgramError (Unit {0})) where
    -- the block that writes the discriminator and fills the rest with zeros
    abbrev pub zero_fill : M AccountInfo ProgramError (Unit {0})
    zero_fill a = elim (try_borrow_mut_data a) [
      | ok raw ↦
          if ltb (length raw) (pod.size + discriminator_len)
          then (err invalid_account_data, a)
          else (
            ok tt,
            record a {
              bytes =
                  pod.discriminator
                  ++ (replicate pod.size 0 ++ drop pod.size (drop discriminator_len raw));
            },
          )
      | err e ↦ (err e, a)
      | panicked ↦ (panicked, a)
    ]

    unfoldable pub init_zero_copy_account : M AccountInfo ProgramError S
    unfolding load_mut_ref
    init_zero_copy_account = do
      realloc (pod.size + discriminator_len)
      zero_fill
      a ← get
      lift (load_mut_ref a)

    unfoldable pub resize_account : M AccountInfo ProgramError (Unit {0})
    resize_account = realloc (pod.size + discriminator_len)
