-- ===== src/Flow.antt =====
-- crates/microwaf/src/sniffer.rs: the flow table.
mod Defs
pub mod Bounds
unfoldable pub use Defs.*
