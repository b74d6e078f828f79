-- ===== src/Transactions/Runes/Ledger.antt =====
-- A rune set read as a ledger from rune ids to amounts, and what `add_rune_input` does to it.
use saturn_crates.Prelude.{
  ℕ, ◌+◌, ◌≤◌, ◌≡◌, ap, ◌∙◌, ◌⊎◌, inl, inr, List, [], ◌∷◌, ◌++◌, true, false, none, some, Result,
  ok, err, if◌then◌else◌, find_first, any, arith, Bool-cases, set, get_elem?, ltb,
}
use saturn_crates.SafeMath.{u128_mod}
use saturn_crates.Collections.FixedSet.{as_slice, position, written}
use saturn_crates.Collections.FixedSet.Laws.{
  IsValid, modify_first, written-IsValid, insert_or_modify_present, insert_or_modify_absent,
}
use saturn_crates.Collections.FixedSet.Slices.{
  position-any, find_first-any, find_first-append, find_first-set_hit, find_first-set_miss,
  take-set_lt,
}
use saturn_crates.Transactions.Chain.{RuneId, id_eq, id_eq_iff, RuneAmount, rune_eq}
use saturn_crates.Transactions.Errors.{
  BitcoinTxError, rune_addition_overflow, rune_input_list_full, of_set_error,
}
use saturn_crates.Transactions.Runes.{RuneSet, is_rune, add_amount, add_rune_input, add_rune_inputs}

-- the amount held of a rune, zero if the set does not have it
abbrev pub held_in : List RuneAmount → RuneId → ℕ
held_in rs id = elim (find_first (is_rune id) rs) [ none ↦ 0 | some r ↦ r.amount ]

abbrev pub held : RuneSet → RuneId → ℕ
held s id = held_in (as_slice s) id

-- what a deposit of `rune` adds to the amount of `id`
abbrev pub share : RuneAmount → RuneId → ℕ
share rune id = if id_eq rune.id id then rune.amount else 0

held-append :
    (rs : List RuneAmount) (rune : RuneAmount) (j : RuneId)
    → any (is_rune rune.id) rs ≡ false
    → held_in (rs ++ (rune ∷ [])) j ≡ held_in rs j + share rune j
held-append rs rune j h = elim (Bool-cases (id_eq rune.id j)) [
  | inl e ↦
      let same : rune.id ≡ j = (id_eq_iff rune.id j).0 e in
      ground (
        arith,
        find_first-append (is_rune j) rs rune,
        rw same at (find_first-any (is_rune rune.id) rs h),
      )
  | inr e ↦ ground (arith, find_first-append (is_rune j) rs rune)
]

held-set :
    (rs : List RuneAmount) (i : ℕ) (a rune : RuneAmount) (j : RuneId)
    → position (is_rune rune.id) rs ≡ some i
    → get_elem? rs i ≡ some a
    → find_first (is_rune rune.id) rs ≡ some a
    → is_rune rune.id a ≡ true
    → held_in (set rs i (record a { amount = a.amount + rune.amount })) j
      ≡ held_in rs j + share rune j
held-set rs i a rune j p at f hit = elim (Bool-cases (id_eq rune.id j)) [
  | inl e ↦
      let same : rune.id ≡ j = (id_eq_iff rune.id j).0 e in
      ground (
        arith,
        rw same at f,
        rw same at (
            find_first-set_hit (is_rune rune.id) rs i (record a { amount = a.amount + rune.amount })
              p hit),
      )
  | inr e ↦
      let other : a.id ≡ rune.id = (id_eq_iff a.id rune.id).0 hit in
      let miss : is_rune j a ≡ false = rw other e in
      ground (
        arith,
        find_first-set_miss (is_rune j) rs i a (record a { amount = a.amount + rune.amount }) at
            miss miss,
      )
]

module _ {E : Type 0} (e : E) (amount : ℕ) (a : RuneAmount) where
  add_amount_fits :
      ltb (a.amount + amount) u128_mod ≡ true
      → add_amount e amount a ≡ ok (record a { amount = a.amount + amount })
  add_amount_fits h = ground arith

  add_amount_over : ltb (a.amount + amount) u128_mod ≡ false → add_amount e amount a ≡ err e
  add_amount_over h = ground arith

-- the three ways that depositing `rune` can end, seen at the rune `j`
abbrev pub Outcome :
    ℕ → RuneSet → RuneAmount → RuneId → Result BitcoinTxError (Unit {0}) × RuneSet → Type 0
Outcome size s rune j (r, s') =
    ((r ≡ ok tt) × IsValid size s' × (held s' j ≡ held s j + share rune j))
    ⊎ ((r ≡ err rune_addition_overflow) × (s' ≡ s) × (u128_mod ≤ held s rune.id + rune.amount))
    ⊎ ((r ≡ err rune_input_list_full) × (s' ≡ s) × (held s rune.id ≡ 0) × (size ≤ s.len))

-- `add_rune_input` adds the amount to its rune and to no other; it fails, changing nothing, when
-- the sum passes 128 bits or when a new rune finds the set full. It never panics.
pub add_rune_input_lem :
    (size : ℕ) (s : RuneSet) (rune : RuneAmount) (j : RuneId)
    → IsValid size s
    → Outcome size s rune j (add_rune_input size s rune)
unfolding add_rune_input
add_rune_input_lem size s rune j v = elim (Bool-cases (any (is_rune rune.id) (as_slice s))) [
  | inl here ↦
      let (i, p) = position-any (is_rune rune.id) (as_slice s) here in
      let (a, f, hit, at, step) =
        modify_first (is_rune rune.id) (add_amount rune_addition_overflow rune.amount) s i p in
      let run =
        insert_or_modify_present rune_eq size of_set_error s rune
          (add_amount rune_addition_overflow rune.amount) i p here
        ∙ step in
      let b : RuneAmount = record a { amount = a.amount + rune.amount } in
      elim (Bool-cases (ltb (a.amount + rune.amount) u128_mod)) [
        | inl fits ↦
            let done =
              run ∙ ap (written i s) (add_amount_fits rune_addition_overflow rune.amount a fits) in
            inl (
              ap (λ t. t.0) done,
              rw done (written-IsValid size s i b v),
              rw (done, take-set_lt s.len s.items i b)
                  (held-set (as_slice s) i a rune j p at f hit),
            )
        | inr over ↦
            let failed =
              run ∙ ap (written i s) (add_amount_over rune_addition_overflow rune.amount a over) in
            inr (inl (ap (λ t. t.0) failed, ap (λ t. t.1) failed, ground (arith, f)))
      ]
  | inr absent ↦
      elim (insert_or_modify_absent rune_eq size of_set_error s rune
        (add_amount rune_addition_overflow rune.amount) v absent) [
          | inl (room, done, valid, slice) ↦
              inl (done, valid, rw slice (held-append (as_slice s) rune j absent))
          | inr (room, failed, same) ↦ inr (
              inr (
                failed,
                same,
                ground (arith, find_first-any (is_rune rune.id) (as_slice s) absent),
                room,
              ))
        ]
]

-- what a list of rune amounts adds to the amount of one rune
pub deposit : List RuneAmount → RuneId → ℕ
deposit [] j = 0
deposit (rune ∷ runes) j = share rune j + deposit runes j

pub add_rune_inputs-IsValid :
    (size : ℕ) (runes : List RuneAmount) (s : RuneSet)
    → IsValid size s
    → IsValid size (add_rune_inputs size runes s).1
unfolding add_rune_inputs
add_rune_inputs-IsValid size [] s v = v
add_rune_inputs-IsValid size (rune ∷ runes) s v = elim (add_rune_input_lem size s rune rune.id v) [
  | inl (done, valid, sum) ↦
      rw done (add_rune_inputs-IsValid size runes (add_rune_input size s rune).1 valid)
  | inr (inl (e, same, _)) ↦ rw (e, same) v
  | inr (inr (e, same, _, _)) ↦ rw (e, same) v
]

-- Depositing a list of amounts, when it succeeds, adds to each rune its share of the list.
pub held-add_rune_inputs :
    (size : ℕ) (runes : List RuneAmount) (s : RuneSet) (j : RuneId)
    → IsValid size s
    → (add_rune_inputs size runes s).0 ≡ ok tt
    → held (add_rune_inputs size runes s).1 j ≡ held s j + deposit runes j
unfolding add_rune_inputs deposit
held-add_rune_inputs size [] s j v h = omega arith
held-add_rune_inputs size (rune ∷ runes) s j v h = elim (add_rune_input_lem size s rune j v) [
  | inl (done, valid, sum) ↦
      let rest =
        held-add_rune_inputs size runes (add_rune_input size s rune).1 j valid (rw done at h) in
      rw done (omega (arith, rest, sum))
  | inr (inl (e, same, _)) ↦ absurd (cc (rw e at h))
  | inr (inr (e, same, _, _)) ↦ absurd (cc (rw e at h))
]
