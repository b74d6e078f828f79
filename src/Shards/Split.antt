-- ===== src/Shards/Split.antt =====
-- The arithmetic of saturn-account-shards/src/split.rs: an amount is divided among shards that hold
-- amounts already, and parts too small for an output are joined to the others.
pub mod Spread
pub mod Needs
pub mod Scale
pub mod Balance
pub mod Dust
use saturn_crates.Prelude.{
  ℕ, zero, suc, ◌+◌, ◌-◌, ◌*◌, ◌/◌, ◌%◌, List, [], ◌∷◌, Bool, true, false, not, Result, ok, err,
  panicked, leb, ltb, if◌then◌else◌, length, keep, try_,
}
use saturn_crates.Prelude.Sort.{sum_by}
use saturn_crates.SafeMath.{MathError, u128_mod, safe_add, safe_sub, safe_mul, safe_div}

abbrev pub sum : List ℕ → ℕ
sum = sum_by (λ x. x)

-- The amounts that the shards hold, as they are read one by one, and `total_current_amount`.
unfoldable pub total_current : List (Result MathError ℕ) → ℕ → Result MathError (List ℕ × ℕ)
total_current [] total = ok ([], total)
total_current (r ∷ rs) total = try_ r λ current.
    try_ (safe_add u128_mod total current)
      λ t. try_ (total_current rs t) λ rest. ok (current ∷ rest.0, rest.1)

-- what each shard needs to reach `desired`, and `total_needed`
unfoldable pub needs : ℕ → List ℕ → ℕ → Result MathError (List ℕ × ℕ)
needs desired [] total = ok ([], total)
needs desired (c ∷ cs) total =
    try_ (if ltb c desired then safe_sub u128_mod desired c else ok 0) λ needed.
      try_ (safe_add u128_mod total needed)
        λ t. try_ (needs desired cs t) λ rest. ok (needed ∷ rest.0, rest.1)

-- Each amount grows by `extra`, and the first `left` of them by one more.
unfoldable pub spread : ℕ → ℕ → List ℕ → Result MathError (List ℕ)
spread extra left [] = ok []
spread extra left (x ∷ xs) = try_ (safe_add u128_mod x extra) λ y.
    try_ (if ltb 0 left then safe_add u128_mod y 1 else ok y)
      λ z. try_ (spread extra (left - 1) xs) λ zs. ok (z ∷ zs)

-- The amount is divided in proportion to the needs, each bound rounded down.
unfoldable pub scale : ℕ → ℕ → List ℕ → ℕ → ℕ → Result MathError (List ℕ)
scale amount total_needed [] cumulative cumulative_needed = ok []
scale amount total_needed (needed ∷ ns) cumulative cumulative_needed =
    try_ (safe_add u128_mod cumulative_needed needed) λ so_far.
      try_ (safe_mul u128_mod amount so_far) λ product.
        try_ (safe_sub u128_mod (product / total_needed) cumulative) λ part.
          try_ (scale amount total_needed ns (product / total_needed) so_far)
            λ parts. ok (part ∷ parts)

-- what follows when `desired_per_shard` is known
unfoldable pub assign : ℕ → List ℕ → ℕ → Result MathError (List ℕ)
unfolding needs spread scale
assign amount currents desired = try_ (needs desired currents 0) λ needed.
    if leb needed.1 amount
    then (try_ (safe_sub u128_mod amount needed.1) λ leftover.
        try_ (safe_div u128_mod leftover (length currents))
          λ extra. spread extra (leftover % length currents) needed.0)
    else scale amount needed.1 needed.0 0 0

-- balance_amount_across_shards, for what is read of the shards
unfoldable pub balance_amount : ℕ → List (Result MathError ℕ) → Result MathError (List ℕ)
unfolding total_current assign
balance_amount amount reads = try_ (total_current reads 0) λ current.
    try_ (safe_add u128_mod current.1 amount) λ total_after.
      try_ (safe_div u128_mod total_after (length reads)) λ desired. assign amount current.0 desired

-- what becomes of the amounts that are no dust, with the sum of the others
unfoldable pub join_dust : ℕ → ℕ → List ℕ → Result MathError (List ℕ)
unfolding spread
join_dust dust_limit small [] = if leb dust_limit small then ok (small ∷ []) else ok []
join_dust dust_limit small (x ∷ xs) =
    try_ (safe_div u128_mod small (length (x ∷ xs)))
      λ to_add. spread to_add (small % length (x ∷ xs)) (x ∷ xs)

unfoldable pub redistribute_sub_dust_values : ℕ → List ℕ → Result MathError (List ℕ)
unfolding join_dust
redistribute_sub_dust_values dust_limit amounts =
    join_dust dust_limit (sum (keep (λ a. ltb a dust_limit) amounts) % u128_mod)
      (keep (λ a. leb dust_limit a) amounts)
