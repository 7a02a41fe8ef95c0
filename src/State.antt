-- ===== src/State.antt =====
-- crates/microwaf/src/state.rs: the state that the threads of the daemon share.
mod Defs
unfoldable pub use Defs.*
