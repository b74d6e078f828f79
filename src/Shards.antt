-- ===== src/Shards.antt =====
-- saturn-account-shards.
pub mod Errors
pub mod Split
pub mod Set
pub mod Derived
pub mod Select
pub mod Settle
pub mod RuneSettle
pub mod Update
pub mod Modified
mod Examples
