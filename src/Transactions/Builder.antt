-- ===== src/Transactions/Builder.antt =====
-- The TransactionBuilder of saturn-bitcoin-transactions/src/lib.rs.
pub mod State
pub mod Frames
pub mod Signers
pub mod Tracking
pub mod Insertion
pub mod Appending
pub mod Inputs
pub mod Accounts
pub mod Queries
pub mod Rebuild
pub mod Select
