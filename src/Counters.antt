-- ===== src/Counters.antt =====
-- crates/mw-core/src/counters.rs: the counters of the sniffer.
mod Defs
pub mod Laws
unfoldable pub use Defs.*
