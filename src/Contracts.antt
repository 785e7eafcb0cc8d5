-- ===== src/Contracts.antt =====
-- packages/contracts: who acts, over which transport; the commands and administrative actions of
-- packages/orchestration that policies speak of.
pub mod Actor
pub mod Commands
pub mod Names
pub mod Budget
pub use Actor.*
pub use Names.*
pub use Budget.*
pub use Commands.*
