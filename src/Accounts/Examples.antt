-- ===== src/Accounts/Examples.antt =====
-- Two accounts, of which the second keeps a number of one byte.
use saturn_crates.Prelude.{
  ℕ, ◌+◌, ◌≡◌, ◌↔◌, refl, List, [], ◌∷◌, ◌++◌, true, false, some, none, Option, err, ◌<◌, ◌⊎◌, ok,
  length, get_elem?, arith,
}
use saturn_crates.Accounts.Borsh.{load, store}
use saturn_crates.Accounts.Borsh.Laws.{BorshLaws, store-load}
use saturn_crates.Accounts.{
  invalid_account_data, AccountInfo, free, get_account, get_pda_account, get_indexed_pda_account,
  le_bytes,
}
use saturn_crates.Accounts.Checks.{Meets, get_account_iff, get_indexed_pda_account-get_pda_account}
use saturn_crates.Accounts.ZeroCopy.{Pod, load_ref, load_mut_ref, with_mut_ref}
use saturn_crates.Accounts.ZeroCopy.Laws.{PodLaws, with_mut_ref-load_ref}

abbrev payer : AccountInfo
payer = record {
  key = 5;
  is_signer = true;
  is_writable = false;
  data_address = 0;
  bytes = [];
  borrow = free;
}

abbrev counter : AccountInfo
counter = record {
  key = 7;
  is_signer = false;
  is_writable = true;
  data_address = 8;
  bytes = 1 ∷ (2 ∷ (3 ∷ (4 ∷ (5 ∷ (6 ∷ (7 ∷ (8 ∷ (40 ∷ (0 ∷ [])))))))));
  borrow = free;
}

get_account_iff_example :
    (get_account (payer ∷ (counter ∷ [])) 1 none (some true) (some 7) ≡ ok counter) ↔ (
      (get_elem? (payer ∷ (counter ∷ [])) 1 ≡ some counter)
      × (Meets none counter.is_signer
          × Meets (some true) counter.is_writable
          × Meets (some 7) counter.key))
get_account_iff_example =
    get_account_iff (payer ∷ (counter ∷ [])) 1 none (some true) (some 7) counter

-- a program address of some seeds
abbrev address : List (List ℕ) → ℕ → ℕ
address seeds program_id = length seeds + program_id

get_indexed_pda_account-get_pda_account_example :
    get_indexed_pda_account 16 address (payer ∷ (counter ∷ [])) 1 none none ((1 ∷ []) ∷ []) 258 5
    ≡ get_pda_account 16 address
        (payer ∷ (counter ∷ []))
        1
        none
        none
        (((1 ∷ []) ∷ []) ++ (le_bytes 258 ∷ []))
        5
get_indexed_pda_account-get_pda_account_example =
    get_indexed_pda_account-get_pda_account 16 address (payer ∷ (counter ∷ [])) 1 none none
      ((1 ∷ []) ∷ []) 258 5

abbrev first_of : List ℕ → ℕ
first_of [] = 0
first_of (b ∷ bs) = b

abbrev byte : Pod ℕ
byte = record {
  size = 1;
  align = 8;
  bytes_of = λ n. n ∷ [];
  from_bytes = first_of;
  discriminator = 1 ∷ (2 ∷ (3 ∷ (4 ∷ (5 ∷ (6 ∷ (7 ∷ (8 ∷ [])))))));
}

byte-PodLaws : PodLaws byte
byte-PodLaws = record { sized = λ s. refl; from_bytes-bytes_of = λ s. refl; tagged = refl }

with_mut_ref-load_ref_example :
    (s : ℕ) × ((load_ref byte counter ≡ ok s)
      × ((s ≡ 40) × (load_ref byte (with_mut_ref byte (λ n. (n, n + 1)) counter).1 ≡ ok (s + 1))))
unfolding with_mut_ref load_mut_ref
with_mut_ref-load_ref_example =
    with_mut_ref-load_ref byte byte-PodLaws (λ n. (n, n + 1)) 40 counter refl

-- a number of one byte, which has to be the whole slice
abbrev one_byte : List ℕ → Option ℕ
one_byte [] = none
one_byte (b ∷ []) = some b
one_byte (b ∷ (c ∷ bs)) = none

one_byte-BorshLaws : BorshLaws (λ n. n ∷ []) one_byte
one_byte-BorshLaws = record { reads = λ s. refl; reads_all = trailing }
  where
    trailing : (s : ℕ) (rest : List ℕ) → 0 < length rest → one_byte (s ∷ rest) ≡ none
    trailing s [] h = absurd (omega arith)
    trailing s (b ∷ rest) h = refl

store-load_example :
    ((◌≡◌ {A = ℕ} 1 10) × (load one_byte (store (λ n. n ∷ []) 3 counter).1 ≡ ok 3))
    ⊎ ((1 < 10) × (load one_byte (store (λ n. n ∷ []) 3 counter).1 ≡ err invalid_account_data))
unfolding store
store-load_example = store-load (λ n. n ∷ []) one_byte one_byte-BorshLaws 3 counter refl
