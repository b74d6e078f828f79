-- ===== src/Collections.antt =====
-- saturn-collections: the fixed-capacity collections.
pub mod PushPop
pub mod FixedList
pub mod FixedSet
pub mod DeclaredSet
pub mod FixedArray
pub mod FixedOption
pub mod FixedBitSet
mod Examples
