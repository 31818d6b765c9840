-- ===== src/Wallet.antt =====
-- wallet/cli.py: the keys of a wallet, its tokens, and the choice and signing of payments.
pub mod Payment
pub mod Sign
pub mod Fetch
pub mod Session
pub mod Commands
pub mod Synced
pub mod Kept
pub mod Choice
pub mod Build
pub mod Unpaid
mod Tests
