-- ===== src/Collections/Examples.antt =====
-- A list of two places and a set of three.
mod Arrays
use mathlib.Core.List.{Perm}
use saturn_crates.Prelude.{
  ℕ, ◌≤◌, ◌<◌, ◌≡◌, refl, List, [], ◌∷◌, ok, panicked, ◌==◌, arith, length, ◌⊎◌, take, false, any,
  find_first, none, some, ◌+◌,
}
use saturn_crates.Collections.FixedList.{FixedList, as_slice, from_slice, from_iter}
use saturn_crates.Collections.FixedList.Laws.{IsValid, from_slice_lem}
use saturn_crates.Collections.FixedList.Stack.{Call, put, get, change, run, replay, run_refines}
use saturn_crates.Collections.FixedSet
use saturn_crates.Collections.FixedSet.{FixedSet, insert, insert_all, try_from_iter}
use saturn_crates.Collections.FixedSet.Laws.{insert_spec}
use saturn_crates.Collections.FixedSet.Collected.{firsts, Collects, try_from_iter-Collects}
use saturn_crates.Collections.FixedSet.Slices.{Distinct}

abbrev two_places : FixedList ℕ
two_places = record { items = 4 ∷ (0 ∷ []); len = 1 }

abbrev calls : List (Call ℕ)
calls = put 5 ∷ (put 6 ∷ (change (λ x. x) ∷ (get ∷ (get ∷ (get ∷ [])))))

run_refines_example :
    IsValid 2 (run 2 calls two_places).1
    × (((run 2 calls two_places).0, as_slice (run 2 calls two_places).1) ≡ replay 2 calls (4 ∷ []))
run_refines_example =
    run_refines 2 calls two_places (record { sized = refl; bounded = omega arith })

abbrev repeated : List ℕ
repeated = 4 ∷ (9 ∷ (4 ∷ []))

abbrev numbers : FixedSet ℕ
numbers = record { items = 4 ∷ (9 ∷ (0 ∷ [])); len = 2 }

numbers-IsValid : FixedSet.Laws.IsValid 3 numbers
numbers-IsValid = record { sized = refl; bounded = omega arith }

as_slice-insert_example :
    FixedSet.Laws.IsValid 3 (insert ◌==◌ 3 numbers 7).1
    × (((insert ◌==◌ 3 numbers 7).0, FixedSet.as_slice (insert ◌==◌ 3 numbers 7).1)
        ≡ insert_spec ◌==◌ 3 (FixedSet.as_slice numbers) 7)
as_slice-insert_example = FixedSet.Laws.as_slice-insert ◌==◌ 3 numbers 7 numbers-IsValid

try_from_iter-Collects_example :
    Collects ◌==◌ 3 (firsts ◌==◌ [] repeated) (try_from_iter ◌==◌ 3 0 repeated)
    × Distinct ◌==◌ (firsts ◌==◌ [] repeated)
try_from_iter-Collects_example = try_from_iter-Collects ◌==◌ 3 0 repeated

-- The second 4 is passed over.
test_collected :
    try_from_iter ◌==◌ 3 0 repeated ≡ ok (record { items = 4 ∷ (9 ∷ (0 ∷ [])); len = 2 })
unfolding try_from_iter insert_all insert FixedSet.new FixedSet.contains
test_collected = refl

remove-Perm_example :
    FixedSet.Laws.IsValid 3 (FixedSet.remove (λ n. n == 4) numbers).1
    × (((any (λ n. n == 4) (FixedSet.as_slice numbers) ≡ false)
          × ((FixedSet.remove (λ n. n == 4) numbers).0 ≡ none)
          × ((FixedSet.remove (λ n. n == 4) numbers).1 ≡ numbers))
        ⊎ ((a : ℕ) × ((FixedSet.remove (λ n. n == 4) numbers).0 ≡ some a)
            × (find_first (λ n. n == 4) (FixedSet.as_slice numbers) ≡ some a)
            × ((FixedSet.remove (λ n. n == 4) numbers).1.len + 1 ≡ 2)
            × Perm
                (FixedSet.as_slice numbers)
                (a ∷ FixedSet.as_slice (FixedSet.remove (λ n. n == 4) numbers).1)))
remove-Perm_example = FixedSet.Removal.remove-Perm 3 (λ n. n == 4) numbers numbers-IsValid
