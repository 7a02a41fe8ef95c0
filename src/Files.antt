-- ===== src/Files.antt =====
-- crates/microwaf/src/config.rs: the configuration files.
mod Paths
mod Fs
mod Io
mod Seed
mod Load
mod Watch
pub mod Keeps
pub mod Seeded
pub mod Reload
pub mod Listing
pub mod Rejected
pub mod Order
unfoldable pub use Paths.*
unfoldable pub use Fs.*
unfoldable pub use Io.*
unfoldable pub use Seed.*
unfoldable pub use Load.*
unfoldable pub use Watch.*
