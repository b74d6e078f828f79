-- ===== src/Shards/Split/Balance.antt =====
-- `balance_amount`: the whole amount is handed out, and evenly.
use saturn_crates.Prelude.{
  ℕ, suc, ◌+◌, ◌-◌, ◌*◌, ◌/◌, ◌%◌, ◌≤◌, ◌<◌, ◌≡◌, refl, ap, ◌∙◌, List, [], ◌∷◌, true, false, ok,
  err, leb, length, arith, Bool-cases, inl, inr, ◌⊎◌, leb→le,
}
use saturn_crates.SafeMath.{u128_mod, division_overflow, safe_add, safe_div}
use saturn_crates.SafeMath.Laws.{safe_add_fits, safe_sub_fits, safe_div_pos}
use saturn_crates.Shards.Split.{sum, needs, assign, total_current, balance_amount}
use saturn_crates.Shards.Split.Spread.{Pointwise, length-Pointwise, Raised, spread_lem}
use saturn_crates.Shards.Split.Needs.{lacks, reads, total_current_lem, needs_lem, lacks-le}
use saturn_crates.Shards.Split.Scale.{scale_lem}

length-reads : (cs : List ℕ) → length (reads cs) ≡ length cs
length-reads [] = refl
length-reads (c ∷ cs) = ap suc (length-reads cs)

length-lacks : (desired : ℕ) (cs : List ℕ) → length (lacks desired cs) ≡ length cs
length-lacks desired [] = refl
length-lacks desired (c ∷ cs) = ap suc (length-lacks desired cs)

sum-Pointwise : (ns ps : List ℕ) → Pointwise (λ n p. p ≤ n) ns ps → sum ps ≤ sum ns
sum-Pointwise [] [] p = omega arith
sum-Pointwise [] (y ∷ ps) p = absurd p
sum-Pointwise (x ∷ ns) [] p = absurd p
sum-Pointwise (x ∷ ns) (y ∷ ps) p = omega (arith, p.0, sum-Pointwise ns ps p.1)

-- Every balance reaches the target.
abbrev pub Reached : ℕ → List ℕ → List ℕ → Type 0
Reached desired = Pointwise (λ c a. desired ≤ c + a)

-- No balance is raised above the target.
abbrev pub Bounded : ℕ → List ℕ → List ℕ → Type 0
Bounded desired = Pointwise (λ c a. (a ≡ 0) ⊎ (c + a ≤ desired))

Raised-Reached :
    (desired extra : ℕ) (cs gets : List ℕ)
    → Raised extra (lacks desired cs) gets
    → Reached desired cs gets
Raised-Reached desired extra [] [] r = tt
Raised-Reached desired extra [] (a ∷ gets) r = absurd r
Raised-Reached desired extra (c ∷ cs) [] r = absurd r
Raised-Reached desired extra (c ∷ cs) (a ∷ gets) r =
    (omega (arith, r.0.0), Raised-Reached desired extra cs gets r.1)

Bounded-lacks :
    (desired : ℕ) (cs gets : List ℕ)
    → Pointwise (λ n p. p ≤ n) (lacks desired cs) gets
    → Bounded desired cs gets
Bounded-lacks desired [] [] r = tt
Bounded-lacks desired [] (a ∷ gets) r = absurd r
Bounded-lacks desired (c ∷ cs) [] r = absurd r
Bounded-lacks desired (c ∷ cs) (a ∷ gets) r =
    (ground (arith, r.0), Bounded-lacks desired cs gets r.1)

division : (x n : ℕ) → 0 < n → (n * (x / n) + x % n ≡ x) × (x % n < n)
division x n pos = grind arith

-- What `assign` hands out: all of the amount, to each shard its part; either every shard reaches the
-- target, or none is raised above it.
abbrev pub Assigned : ℕ → ℕ → List ℕ → List ℕ → Type 0
Assigned amount desired cs gets =
    (length gets ≡ length cs)
    × (sum gets ≡ amount)
    × (Reached desired cs gets ⊎ Bounded desired cs gets)

needs_all :
    (desired : ℕ) (cs : List ℕ)
    → sum (lacks desired cs) < u128_mod
    → needs desired cs 0 ≡ ok (lacks desired cs, sum (lacks desired cs))
needs_all desired cs h =
    needs_lem desired cs 0 (omega (arith, h)) ∙ ap (λ t. ok (lacks desired cs, t)) (omega arith)

zero_part : (amount t : ℕ) → (amount * 0) / t ≡ 0
zero_part amount t = grind arith

whole_part : (amount t : ℕ) → 0 < t → (amount * (0 + t)) / t ≡ amount
whole_part amount t pos = grind arith

module _ (amount : ℕ) (cs : List ℕ) (desired : ℕ) (pos : 0 < length cs) (fits : amount < u128_mod)
    (lack : sum (lacks desired cs) < u128_mod) where
  surplus :
      (leb (sum (lacks desired cs)) amount ≡ true)
      → (gets : List ℕ) × (assign amount cs desired ≡ ok gets) × Assigned amount desired cs gets
  unfolding assign
  surplus enough =
      let left = amount - sum (lacks desired cs) in
      let (whole, under) = division left (length cs) pos in
      let len = length-lacks desired cs in
      let product = ap (λ k. k * (left / length cs)) len in
      let room = leb→le (sum (lacks desired cs)) amount enough in
      let (gets, run, all, raised) =
        spread_lem (left / length cs) (left % length cs) (lacks desired cs)
          (omega (arith, len, under)) (omega (arith, whole, room, fits, product)) in
      (
        gets,
        rw
            (
              needs_all desired cs lack,
              enough,
              safe_sub_fits u128_mod amount (sum (lacks desired cs)) room,
              safe_div_pos u128_mod left (length cs) pos,
              run,
            )
            refl,
        (
          length-Pointwise (λ x y. (x + left / length cs ≤ y) × (y ≤ x + left / length cs + 1))
                (lacks desired cs) gets raised
              ∙ len,
          omega (arith, all, product, whole, room),
          inl (Raised-Reached desired (left / length cs) cs gets raised),
        ),
      )

  shortage :
      (leb (sum (lacks desired cs)) amount ≡ false)
      → amount * sum (lacks desired cs) < u128_mod
      → (gets : List ℕ) × (assign amount cs desired ≡ ok gets) × Assigned amount desired cs gets
  unfolding assign
  shortage short product =
      let t = sum (lacks desired cs) in
      let less : amount < t = ground arith in
      let start = zero_part amount t in
      let (gets, run, all, bounded) =
        scale_lem amount t (lacks desired cs) 0 (omega (arith, less)) (omega (arith, less)) lack
          product (omega arith) in
      (
        gets,
        rw (needs_all desired cs lack, short) (rw start at run),
        (
          length-Pointwise (λ n p. p ≤ n) (lacks desired cs) gets bounded ∙ length-lacks desired cs,
          omega (arith, all, start, whole_part amount t (omega (arith, less))),
          inr (Bounded-lacks desired cs gets bounded),
        ),
      )

-- All of the amount is handed out, a part to each shard, so that either every shard reaches the average
-- of what the shards then hold, rounded down, or no shard is raised above it. The call succeeds if there
-- is a shard, and the amount times the sum of all that is held fits in 128 bits.
pub balance_amount_lem :
    (amount : ℕ) (cs : List ℕ)
    → 0 < length cs
    → sum cs + amount < u128_mod
    → amount * (sum cs + amount) < u128_mod
    → (gets : List ℕ) × (balance_amount amount (reads cs) ≡ ok gets)
      × Assigned amount ((sum cs + amount) / length cs) cs gets
unfolding balance_amount
balance_amount_lem amount cs pos fits product =
    let desired = (sum cs + amount) / length cs in
    let (whole, _) = division (sum cs + amount) (length cs) pos in
    let lack : sum (lacks desired cs) ≤ sum cs + amount =
      omega (arith, lacks-le desired cs, whole) in
    let (gets, run, assigned) = assigned_of desired lack in
    (
      gets,
      rw
          (
            total_current_lem cs 0 (omega (arith, fits)),
            zero_add (sum cs),
            length-reads cs,
            safe_add_fits u128_mod (sum cs) amount fits,
            safe_div_pos u128_mod (sum cs + amount) (length cs) pos,
            run,
          )
          refl,
      assigned,
    )
  where
    zero_add : (k : ℕ) → 0 + k ≡ k
    zero_add k = omega arith

    mul_le : (a b c : ℕ) → b ≤ c → a * b ≤ a * c
    mul_le a b c h = grind arith

    assigned_of :
        (desired : ℕ)
        → sum (lacks desired cs) ≤ sum cs + amount
        → (gets : List ℕ) × (assign amount cs desired ≡ ok gets) × Assigned amount desired cs gets
    assigned_of desired lack = elim (Bool-cases (leb (sum (lacks desired cs)) amount)) [
      | inl enough ↦
          surplus amount cs desired pos (omega (arith, fits)) (omega (arith, fits, lack)) enough
      | inr short ↦
          shortage amount cs desired pos (omega (arith, fits)) (omega (arith, fits, lack)) short
            (omega (arith, product, mul_le amount (sum (lacks desired cs)) (sum cs + amount) lack))
    ]

-- Without a shard the division fails.
pub balance_amount_no_shard :
    (amount : ℕ) → amount < u128_mod → balance_amount amount [] ≡ err division_overflow
unfolding balance_amount total_current safe_add safe_div
balance_amount_no_shard amount h = ground arith
