-- ===== src/Stores.antt =====
-- utxo/mock_store.py: the ledger of unspent tokens in memory.
pub mod State
pub mod Index
pub mod Hash
pub mod Memory
pub mod Table
pub mod Commit
pub mod Intent
pub mod Prepared
pub mod Sums
pub mod Conserve
pub mod Apply
pub mod Owners
pub mod Uuids
pub mod Indexed
pub mod Balances
pub mod Threads
pub mod Interleaved
mod Tests
