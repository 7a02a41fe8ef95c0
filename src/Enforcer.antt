-- ===== src/Enforcer.antt =====
-- crates/mw-core/src/enforcer.rs and crates/microwaf/src/ebpf.rs: what applies a policy.
mod Defs
pub mod Laws
unfoldable pub use Defs.*
