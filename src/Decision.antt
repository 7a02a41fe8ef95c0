-- ===== src/Decision.antt =====
-- crates/microwaf/src/decision.rs: the decision loop.
mod Defs
pub mod Client
pub mod Tick
pub mod Steady
pub mod Quiet
mod Loop
pub mod Running
pub mod Sniffing
pub mod Rounds
unfoldable pub use Defs.*
unfoldable pub use Loop.*
