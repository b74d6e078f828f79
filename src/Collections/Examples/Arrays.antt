-- ===== src/Collections/Examples/Arrays.antt =====
-- An array of two places and a bitset of four.
use saturn_crates.Prelude.{
  ◌+◌, replicate, ℕ, ◌≡◌, refl, arith, List, [], ◌∷◌, ◌==◌, ltb, true, false,
}
use saturn_crates.Collections.FixedArray.{FixedArray}
use saturn_crates.Collections.FixedArray.Stands.{Stands}
use saturn_crates.Collections.FixedArray.Calls.{Call, run, list_run, run-list_run}
use saturn_crates.Collections.DeclaredSet
use saturn_crates.Collections.FixedSet
use saturn_crates.Collections.FixedBitSet
use saturn_crates.Collections.FixedBitSet.{FixedBitSet, contains, collect_sorted}
use saturn_crates.Collections.FixedBitSet.Laws.{Models, IsValid, set_run, run-set_run}

abbrev two_places : FixedArray ℕ
two_places = record { items = 4 ∷ (0 ∷ []); count = 1 }

two_places-Stands : Stands 2 0 two_places (4 ∷ [])
two_places-Stands = record {
  slots = refl;
  counted = refl;
  bounded = omega arith;
  small = omega arith;
}

abbrev calls : List (Call ℕ)
calls =
    Call.add 5
    ∷ (Call.add 6
        ∷ (Call.remove_at 0
            ∷ (Call.retain (λ n. ltb n 5)
                ∷ (Call.get_mut (λ n. n + 2) 0
                    ∷ (Call.get_mut (λ n. n + 2) 1
                        ∷ (Call.add 7
                            ∷ (Call.remove_item 7
                                ∷ (Call.get 0 ∷ (Call.as_slice ∷ (Call.is_full ∷ []))))))))))

run-list_run_example :
    ((run ◌==◌ 2 0 calls two_places).0 ≡ (list_run ◌==◌ 2 calls (4 ∷ [])).0)
    × Stands 2 0 (run ◌==◌ 2 0 calls two_places).1 (list_run ◌==◌ 2 calls (4 ∷ [])).1
run-list_run_example = run-list_run ◌==◌ 2 0 calls two_places (4 ∷ []) two_places-Stands

abbrev bits : FixedBitSet
bits = record { included = false ∷ (true ∷ (false ∷ (true ∷ []))); count = 2 }

bits-IsValid : IsValid 4 bits
bits-IsValid = record { sized = refl; counted = refl }

abbrev bit_calls : List FixedBitSet.Laws.Call
bit_calls =
    FixedBitSet.Laws.Call.insert 0
    ∷ (FixedBitSet.Laws.Call.remove 1
        ∷ (FixedBitSet.Laws.Call.insert 9 ∷ (FixedBitSet.Laws.Call.insert 0 ∷ [])))

run-set_run_example :
    ((FixedBitSet.Laws.run 4 bit_calls bits).0 ≡ (set_run 4 bit_calls (contains 4 bits)).0)
    × Models 4 (FixedBitSet.Laws.run 4 bit_calls bits).1 (set_run 4 bit_calls (contains 4 bits)).1
run-set_run_example =
    run-set_run 4 bit_calls bits (contains 4 bits)
      (record { valid = bits-IsValid; same = λ j. refl })

-- The length of a declared set of 256 places wraps around.
wraps : (DeclaredSet.insert ◌==◌ 256 (record { items = replicate 256 0; len = 255 }) 7).1.len ≡ 0
unfolding DeclaredSet.insert DeclaredSet.is_full FixedSet.contains
wraps = refl
