-- ===== src/Sniffer.antt =====
-- crates/microwaf/src/sniffer.rs: from frames to counters.
mod Defs
mod Frame
pub mod Cases
pub mod Flows
pub mod FirstRule
pub mod Tracked
pub mod Others
pub mod Isolation
unfoldable pub use Defs.*
unfoldable pub use Frame.*
