-- ===== src/Lib.antt =====
-- The Saturn crates: libraries for programs that keep Bitcoin UTXOs in sharded accounts.
--
-- Parts and files
--
-- Prelude (Tests, Lists, Exec, Sort): native numbers with Boolean tests, lists measured by them, the
-- result of a call (a value, an error or a panic), the state monad of the `&mut self` methods, and
-- a stable sort.
--
-- SafeMath: saturn-safe-math/src/lib.rs. An integer of `w` bits is a number below `2 ^ w`.
--
-- Collections: saturn-collections/src. In generic, PushPop is the trait PushPopCollection with its laws;
-- FixedList, FixedSet and FixedBitSet keep their array and their length or count, as the structs do. In
-- macros, FixedArray, FixedOption and DeclaredSet are the types that the macros declare. The functions
-- carry the names of the methods.
--
-- Transactions: saturn-bitcoin-transactions/src. Chain has the data of the libraries that the crate
-- stands on; Runes and Runes/Ledger are `add_rune_input`; Builder is the TransactionBuilder of lib.rs,
-- with its state in Builder/State, the methods that add inputs in Builder/Inputs and Builder/Accounts,
-- the selection of UTXOs in Builder/Select, the fee queries in Builder/Queries and
-- `new_with_transaction` in Builder/Rebuild; Mempool is mempool.rs; Util is util.rs; Fetch is `get_runes`
-- of arch.rs and `TryFrom<&UtxoMeta>` of utxo_info.rs; Fees and Reserve are calc_fee.rs and
-- input_calc.rs; Consolidation is consolidation.rs.
--
-- Shards: saturn-account-shards/src. Set has the trait StateShard with its contract (Set/Laws) and the
-- access to shards; Derived is the implementation that saturn-account-shards-derive writes for a struct;
-- Select is the selection of shards of shard_set.rs and shard_indices.rs; Split is the arithmetic of
-- split.rs, and Settle and RuneSettle are what split.rs does with shards and a builder, for satoshis and
-- runes; Update and Modified are update.rs, for shards and for the transaction.
--
-- Accounts: saturn-account-parser/src. The checks on accounts of lib.rs, and the codecs of codec: ZeroCopy
-- and Borsh.
--
-- UtxoParser: saturn-utxo-parser-derive/src. The parser that the macro writes for a struct, as a function
-- of the description of its fields, and the checks on the description (Check).
--
-- AccountMacros: saturn-account-macros/src. The description that the derive macro of Accounts makes of a
-- field (model.rs), and the rules for it (Validator: validator.rs and its modules).
--
-- How the parts interact: the builder keeps its inputs to sign and its modified accounts in a FixedList
-- and its runes in a FixedSet; consolidation and the estimates work on a transaction and any
-- collection with push and pop, which is that FixedList; a derived shard is a FixedArray and a
-- FixedOption, and what is shown of the updates holds for every implementation of StateShard that meets its
-- contract; the shards read the builder's inputs to know what is spent, and add outputs to its transaction;
-- a shard lies in the bytes of an account, which the zero-copy codec reads and writes.
--
-- State and errors: a method with `&mut self` is a function from a state to a result and a state, and
-- what it changed before an error stays changed. An index out of range and the like give `panicked`.
-- Arithmetic that the source writes with plain operators wraps around, as in a release build.
--
-- Loops are structural recursion over what they run through, or over the number of rounds that are left,
-- which the source computes before the loop; no fuel is used.
--
-- The features `runes` and `utxo-consolidation` are on.
--
-- Not modelled: the crates under deps, which belong to another project (their public data is in
-- Transactions/Chain; sizes of transactions, fees of a rate and constants are fields of the record
-- `Node`); bytemuck and borsh, which are parameters of the codecs; floating point (a fee rate is the bit
-- pattern of its `f64`, and is compared as a number, which is the order of the rates where these are
-- neither negative nor NaN: `FeeRate::try_from` of an f64 refuses those, that of bytes does not); JSON and byte order; in the macro crates, the reading of
-- attributes, which works on syntax trees, and the code that saturn-account-macros and
-- saturn-program-macros write; calls of the runtime.
pub mod Prelude
pub mod SafeMath
pub mod Collections
pub mod Transactions
pub mod Shards
pub mod Accounts
pub mod UtxoParser
pub mod AccountMacros
