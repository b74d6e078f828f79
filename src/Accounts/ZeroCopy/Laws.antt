-- ===== src/Accounts/ZeroCopy/Laws.antt =====
-- The zero-copy codec: what is stored is loaded, and a borrowed struct is a shard of a loader.
use saturn_crates.Prelude.{
  ℕ, zero, suc, ◌+◌, ◌≡◌, ◌≤◌, ◌⊎◌, refl, sym, ap, ap₂, ◌∙◌, List, [], ◌∷◌, ◌++◌, not, Result, ok,
  err, ok-injective, ltb, if◌then◌else◌, length, take, drop, arith, length-append, length-take,
  Bool-cases, Result-cases, inl, inr,
}
use mathlib.Core.Path.{subst}
use saturn_crates.Collections.FixedArray.Stands.{take-append}
use saturn_crates.Accounts.{
  AccountInfo, Borrow, free, shared, exclusive, ProgramError, invalid_account_data,
}
use saturn_crates.Accounts.ZeroCopy.{
  Pod, bytes_eq, discriminator_len, check_data, struct_bytes, with_struct_bytes, check_alignment,
  aligned_struct, load_copy, store_copy, load_ref, load_mut_ref, with_mut_ref,
}

-- what bytemuck says of `bytes_of` and `from_bytes`, and the length of a discriminator
pub record PodLaws {S : Type 0} (pod : Pod S) : Type 0 where
  pub sized : (s : S) → length (pod.bytes_of s) ≡ pod.size
  pub from_bytes-bytes_of : (s : S) → pod.from_bytes (pod.bytes_of s) ≡ s
  pub tagged : length pod.discriminator ≡ discriminator_len

module _ {A : Type 0} where
  drop-append : (xs ys : List A) (n : ℕ) → n ≡ length xs → drop n (xs ++ ys) ≡ ys
  drop-append [] ys zero h = refl
  drop-append [] ys (suc n) h = absurd (omega arith)
  drop-append (x ∷ xs) ys zero h = absurd (omega arith)
  drop-append (x ∷ xs) ys (suc n) h = drop-append xs ys n (omega arith)

  take-append_at : (xs ys : List A) (n : ℕ) → n ≡ length xs → take n (xs ++ ys) ≡ xs
  take-append_at xs ys n h = ap (λ k. take k (xs ++ ys)) h ∙ take-append xs ys

  pub length-drop : (n : ℕ) (xs : List A) → n ≤ length xs → length (drop n xs) + n ≡ length xs
  length-drop zero xs h = omega arith
  length-drop (suc n) [] h = absurd (omega arith)
  length-drop (suc n) (x ∷ xs) h = omega (arith, length-drop n xs)

pub Borrow-cases : (b : Borrow) → (b ≡ free) ⊎ ((b ≡ shared) ⊎ (b ≡ exclusive))
Borrow-cases free = inl refl
Borrow-cases shared = inr (inl refl)
Borrow-cases exclusive = inr (inr refl)

module _ {S : Type 0} (pod : Pod S) (laws : PodLaws pod) where
  -- the bytes after a write to the struct: their length, the discriminator and the struct
  written :
      (raw : List ℕ) (s : S)
      → check_data pod raw ≡ ok tt
      → (check_data pod (with_struct_bytes pod raw (pod.bytes_of s)) ≡ ok tt)
        × (struct_bytes pod (with_struct_bytes pod raw (pod.bytes_of s)) ≡ pod.bytes_of s)
  written raw s h =
      let long : discriminator_len + pod.size ≤ length raw = ground arith in
      let front = take discriminator_len raw in
      let rest = drop discriminator_len raw in
      let bytes = pod.bytes_of s in
      let tag = length-take discriminator_len raw (omega (arith, long)) in
      let left = length-drop discriminator_len raw (omega (arith, long)) in
      let tail = length-drop pod.size rest (omega (arith, long, left)) in
      let same_tag =
        take-append_at front (bytes ++ drop pod.size rest) discriminator_len (sym tag) in
      let behind = drop-append front (bytes ++ drop pod.size rest) discriminator_len (sym tag) in
      let size : length (with_struct_bytes pod raw bytes) ≡ length raw = omega (
        arith,
        tag,
        left,
        tail,
        laws.sized s,
        length-append front (bytes ++ drop pod.size rest),
        length-append bytes (drop pod.size rest),
      ) in
      (
        ap₂ check size same_tag ∙ h,
        ap (take pod.size) behind
            ∙ take-append_at bytes (drop pod.size rest) pod.size (sym (laws.sized s)),
      )
    where
      check : ℕ → List ℕ → Result ProgramError (Unit {0})
      check n t =
          if ltb n (discriminator_len + pod.size)
          then err invalid_account_data
          else if not (bytes_eq t pod.discriminator)
          then err invalid_account_data
          else ok tt

  store_copy-ok :
      (s : S) (a : AccountInfo)
      → (store_copy pod s a).0 ≡ ok tt
      → (check_data pod a.bytes ≡ ok tt)
        × ((a.borrow ≡ free)
            × ((store_copy pod s a).1
                ≡ record a { bytes = with_struct_bytes pod a.bytes (pod.bytes_of s) }))
  unfolding store_copy
  store_copy-ok s a h = elim (Borrow-cases a.borrow) [
    | inl idle ↦ elim (Result-cases (check_data pod a.bytes)) [
      | inl (done, passed) ↦ (
        passed,
        (
          idle,
          rw (idle, passed, store_copy)
              (ap
                (λ b. record a {
                  bytes = with_struct_bytes pod a.bytes (pod.bytes_of s);
                  borrow = b;
                })
                idle),
        ),
      )
      | inr (inl (e, failed)) ↦ absurd (cc (rw (idle, failed, store_copy) at h))
      | inr (inr failed) ↦ absurd (cc (rw (idle, failed, store_copy) at h))
    ]
    | inr (inl held) ↦ absurd (cc (rw (held, store_copy) at h))
    | inr (inr held) ↦ absurd (cc (rw (held, store_copy) at h))
  ]

  -- (The bytes of a struct are as many as its size says and give the struct back, and the struct is aligned
  -- in the account.) What is stored in an account is what a load of the account then gives.
  pub store_copy-load_copy :
      (s : S) (a : AccountInfo)
      → check_alignment pod a ≡ ok tt
      → (store_copy pod s a).0 ≡ ok tt
      → load_copy pod (store_copy pod s a).1 ≡ ok s
  unfolding load_copy
  store_copy-load_copy s a aligned h =
      let (passed, (idle, stored)) = store_copy-ok s a h in
      let (check, bytes) = written a.bytes s passed in
      subst (λ b. load_copy pod b ≡ ok s) (sym stored)
        (rw (idle, check, load_copy)
          (rw (aligned, bytes, aligned_struct) (ap ok (laws.from_bytes-bytes_of s))))

  load_mut_ref-ok :
      (s : S) (a : AccountInfo)
      → load_mut_ref pod a ≡ ok s
      → (check_data pod a.bytes ≡ ok tt)
        × ((a.borrow ≡ free)
            × ((check_alignment pod a ≡ ok tt) × (pod.from_bytes (struct_bytes pod a.bytes) ≡ s)))
  unfolding load_mut_ref
  load_mut_ref-ok s a h = elim (Bool-cases a.is_writable) [
    | inr locked ↦ absurd (cc (rw (locked, load_mut_ref) at h))
    | inl writable ↦ elim (Borrow-cases a.borrow) [
      | inr (inl held) ↦ absurd (cc (rw (writable, held, load_mut_ref) at h))
      | inr (inr held) ↦ absurd (cc (rw (writable, held, load_mut_ref) at h))
      | inl idle ↦ elim (Result-cases (check_data pod a.bytes)) [
        | inr (inl (e, failed)) ↦ absurd (cc (rw (writable, idle, failed, load_mut_ref) at h))
        | inr (inr failed) ↦ absurd (cc (rw (writable, idle, failed, load_mut_ref) at h))
        | inl (done, passed) ↦ elim (Result-cases (check_alignment pod a)) [
          | inr (inl (e, failed)) ↦
              absurd (cc (rw (writable, idle, passed, failed, load_mut_ref) at h))
          | inr (inr failed) ↦ absurd (cc (rw (writable, idle, passed, failed, load_mut_ref) at h))
          | inl (done, aligned) ↦ (
            passed,
            (
              idle,
              (aligned, ok-injective (rw (writable, idle, passed, aligned, load_mut_ref) at h)),
            ),
          )
        ]
      ]
    ]
  ]

  -- (The bytes of a struct are as many as its size says, and give the struct back.) A call that works on the
  -- borrowed struct works on the one that a load gives, and a later load gives what the call left.
  pub with_mut_ref-load_ref :
      {A : Type 0} (f : S → A × S) (r : A) (a : AccountInfo)
      → (with_mut_ref pod f a).0 ≡ ok r
      → (s : S) × ((load_ref pod a ≡ ok s)
          × (((f s).0 ≡ r) × (load_ref pod (with_mut_ref pod f a).1 ≡ ok (f s).1)))
  unfolding with_mut_ref load_ref
  with_mut_ref-load_ref f r a h = elim (Result-cases (load_mut_ref pod a)) [
    | inr (inl (e, failed)) ↦ absurd (cc (rw (failed, with_mut_ref) at h))
    | inr (inr failed) ↦ absurd (cc (rw (failed, with_mut_ref) at h))
    | inl (s, found) ↦
        let (passed, (idle, (aligned, same))) = load_mut_ref-ok s a found in
        let (check, bytes) = written a.bytes (f s).1 passed in
        (
          s,
          (
            rw (idle, passed, aligned, load_ref) (ap ok same),
            (
              ok-injective (rw (found, with_mut_ref) at h),
              rw (found, with_mut_ref)
                  (rw (idle, check, aligned, bytes, load_ref)
                    (ap ok (laws.from_bytes-bytes_of (f s).1))),
            ),
          ),
        )
  ]
