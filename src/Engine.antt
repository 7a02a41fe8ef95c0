-- ===== src/Engine.antt =====
-- crates/mw-core/src/rule.rs: `RuleEngine`.
mod Defs
pub mod Laws
unfoldable pub use Defs.*
