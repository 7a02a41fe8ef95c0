-- ===== src/Client.antt =====
-- crates/mw-core/src/client.rs: the identity of a client.
mod Defs
mod Display
mod Parse
mod Digits
pub mod Refs
unfoldable pub use Defs.*
unfoldable pub use Display.*
unfoldable pub use Parse.*
