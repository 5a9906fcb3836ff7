-- ===== src/Crypto.antt =====
-- vault/internal/crypto.
pub mod Metadata
pub mod Keys
