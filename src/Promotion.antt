-- ===== src/Promotion.antt =====
-- The promotion of drafts to canonical notes, and the outbox that makes it recoverable.
pub mod Outbox
pub mod Process
pub mod Replay
pub mod Plan
pub mod Draft
mod Examples
