-- ===== src/Rule.antt =====
-- crates/mw-core/src/rule.rs: rules, rule sets and their validation.
mod Terms
mod Defs
pub mod Valid
pub mod Names
unfoldable pub use Terms.*
unfoldable pub use Defs.*
