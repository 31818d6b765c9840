-- ===== src/Models.antt =====
-- core/models.py: the data models that the stores and the wallet share.
pub mod Types
pub mod Validate
pub mod Status
pub mod Canonical
pub mod Economics
pub mod Amounts
pub mod Balance
mod Tests
