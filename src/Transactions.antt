-- ===== src/Transactions.antt =====
-- saturn-bitcoin-transactions.
pub mod Chain
pub mod Mempool
pub mod Util
pub mod Fetch
pub mod Errors
pub mod Runes
pub mod Builder
pub mod Fees
pub mod Reserve
pub mod Consolidation
mod Examples
