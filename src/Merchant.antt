-- ===== src/Merchant.antt =====
-- merchant/main.py: the payments that a merchant asks for.
pub mod State
pub mod Payments
pub mod Callback
pub mod Access
pub mod Settled
mod Tests
