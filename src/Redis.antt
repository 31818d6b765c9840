-- ===== src/Redis.antt =====
-- utxo/store.py: the ledger of unspent tokens in Redis.
pub mod State
pub mod Process
pub mod View
pub mod Snapshot
pub mod Values
pub mod Restored
pub mod Balance
pub mod Refused
mod Tests
