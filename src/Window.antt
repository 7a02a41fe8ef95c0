-- ===== src/Window.antt =====
-- crates/mw-core/src/window.rs: sliding windows of 60 one-second buckets, one for each rule.
mod Defs
pub mod Recent
pub mod Sums
pub mod Silent
unfoldable pub use Defs.*
