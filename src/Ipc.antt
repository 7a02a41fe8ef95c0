-- ===== src/Ipc.antt =====
-- crates/microwaf/src/ipc.rs: the control socket.
mod Defs
pub mod Wire
pub mod Lists
pub mod Top
pub mod Dispatch
pub mod Untagged
pub mod Compare
pub mod Ranks
pub mod Rows
pub mod Order
pub mod Synced
pub mod Block
unfoldable pub use Defs.*
