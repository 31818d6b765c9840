-- ===== src/Hamilton.antt =====
-- hamilton/main.py: the core ledger service.
pub mod State
pub mod Request
pub mod Audit
pub mod Idem
pub mod Handlers
pub mod Table
pub mod Spending
pub mod Outputs
pub mod Atomic
pub mod Once
pub mod Transfer
pub mod MintBurn
pub mod Guards
pub mod Chain
pub mod Effects
pub mod Sound
pub mod Conservation
pub mod Run
pub mod Ownership
pub mod Access
pub mod Init
pub mod Admitted
pub mod Served
pub mod Limit
pub mod Validate
pub mod Valid
mod Tests
