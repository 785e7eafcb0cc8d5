-- ===== src/Revocation.antt =====
-- Where revoked token ids are kept: the file store, the table, and what the configuration reads.
pub mod Store
pub mod Restart
pub mod Config
pub mod Table
mod Examples
