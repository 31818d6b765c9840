-- ===== src/Crypto.antt =====
-- core/crypto.py: signed tokens.
pub mod Base64
pub mod Token
pub mod RoundTrip
mod Tests
