-- ===== src/HashMap.antt =====
-- `std::collections::HashMap`, behind the laws that the components use.
mod Defs
mod Laws
pub mod Perm
unfoldable pub use Defs.*
pub use Laws.*
