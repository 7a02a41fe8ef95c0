-- ===== src/Config.antt =====
-- crates/mw-core/src/config.rs: the configuration files and the compilation of rules.
mod Defs
pub mod Compiled
unfoldable pub use Defs.*
