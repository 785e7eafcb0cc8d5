-- ===== src/Orchestrator.antt =====
-- packages/orchestration/src/root/multi-agent-orchestrator.ts
pub mod Types
pub mod Memory
pub mod Handlers
pub mod Laws
mod Examples
