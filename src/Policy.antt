-- ===== src/Policy.antt =====
-- crates/mw-core/src/policy.rs: manual and automatic policies, and how they merge.
mod Action
mod Defs
pub mod Merge
pub mod Strongest
pub mod Stored
unfoldable pub use Action.*
unfoldable pub use Defs.*
