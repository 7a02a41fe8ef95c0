-- ===== src/Cli.antt =====
-- crates/microwaf/src/cli: the command line.
mod Format
mod Top
pub mod Live
mod Args
mod Startup
mod Commands
pub mod Widths
pub mod Aligned
pub mod Keys
pub mod Asked
pub mod Ends
pub mod Pressed
pub mod Restored
unfoldable pub use Format.*
unfoldable pub use Live.*
unfoldable pub use Top.*
unfoldable pub use Args.*
unfoldable pub use Startup.*
unfoldable pub use Commands.*
