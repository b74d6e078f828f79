-- ===== src/Collections/FixedBitSet.antt =====
-- saturn-collections/src/generic/fixed_bitset.rs.
--
-- The const parameter `SIZE` is the argument `size`. `included` is the array, which has `SIZE` elements.
pub mod Laws
pub mod Collect
use saturn_crates.Prelude.{
  ℕ, zero, suc, ◌+◌, ◌-◌, List, [], ◌∷◌, Bool, true, false, not, ◌&&◌, Option, none, some, ltb,
  ◌==◌, if◌then◌else◌, map, length, get_elem?, set, replicate,
}

pub record FixedBitSet : Type 0 where
  pub included : List Bool
  pub count : ℕ

-- `included[index]`, for an index in range
abbrev pub bit : List Bool → ℕ → Bool
bit included index = elim (get_elem? included index) [ none ↦ false | some b ↦ b ]

unfoldable pub new : ℕ → FixedBitSet
new size = record { included = replicate size false; count = 0 }

unfoldable pub is_empty : FixedBitSet → Bool
is_empty s = s.count == 0

unfoldable pub contains : ℕ → FixedBitSet → ℕ → Bool
contains size s index = ltb index size && bit s.included index

unfoldable pub insert : ℕ → FixedBitSet → ℕ → Bool × FixedBitSet
insert size s index =
    if ltb index size && not (bit s.included index)
    then (true, record { included = set s.included index true; count = s.count + 1 })
    else (false, s)

unfoldable pub remove : ℕ → FixedBitSet → ℕ → Bool × FixedBitSet
remove size s index =
    if ltb index size && bit s.included index
    then (true, record { included = set s.included index false; count = s.count - 1 })
    else (false, s)

unfoldable pub extend_from_slice : ℕ → FixedBitSet → List ℕ → FixedBitSet
unfolding insert
extend_from_slice size s [] = s
extend_from_slice size s (index ∷ indices) = extend_from_slice size (insert size s index).1 indices

-- the loop of `collect_sorted`, from `index` on
unfoldable pub collect_from : ℕ → ℕ → List Bool → List ℕ → ℕ → ℕ × List ℕ
collect_from size index [] buffer count = (count, buffer)
collect_from size index (included ∷ rest) buffer count = elim (included && ltb count size) [
  | true ↦ collect_from size (index + 1) rest (set buffer count index) (count + 1)
  | false ↦ collect_from size (index + 1) rest buffer count
]

unfoldable pub collect_sorted : ℕ → FixedBitSet → List ℕ → ℕ × List ℕ
unfolding collect_from
collect_sorted size s buffer = collect_from size 0 s.included buffer 0

-- the indices, from `index` on, of the bits that are set
abbrev pub indices_from : ℕ → List Bool → List ℕ
indices_from index [] = []
indices_from index (included ∷ rest) = elim included [
  | true ↦ index ∷ indices_from (index + 1) rest
  | false ↦ indices_from (index + 1) rest
]

unfoldable pub iter : FixedBitSet → List ℕ
iter s = indices_from 0 s.included

unfoldable pub clear : FixedBitSet → FixedBitSet
clear s = record { included = map (λ b. false) s.included; count = 0 }
