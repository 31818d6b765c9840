-- ===== src/Bridge.antt =====
-- bridge/main.py: the liquidity bridge between the bank and the ledger.
pub mod State
pub mod Liquidity
pub mod Access
pub mod Endpoints
pub mod Keeps
pub mod Replay
pub mod Backing
pub mod Process
pub mod Books
mod Tests
