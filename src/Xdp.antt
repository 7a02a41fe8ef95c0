-- ===== src/Xdp.antt =====
-- crates/mw-ebpf/src/lib.rs: the XDP program.
mod Defs
pub mod Drops
unfoldable pub use Defs.*
