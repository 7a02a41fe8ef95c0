-- ===== src/Remote.antt =====
-- crates/mw-client: the client library.
mod Defs
pub mod Bodies
pub mod Server
unfoldable pub use Defs.*
