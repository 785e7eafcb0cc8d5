-- ===== src/Auth.antt =====
-- The authorization core of packages/orchestration/src/root: the actor registry, issued tokens and
-- the policy that decides who may run which command.
pub mod Platform
pub mod Window
pub mod Lifecycle
pub mod Registry
pub mod Token
pub mod Roles
pub mod Policy
pub mod Authorize
pub mod Inspect
pub mod Summary
mod Examples
