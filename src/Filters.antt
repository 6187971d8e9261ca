-- ===== src/Filters.antt =====
-- include/jay/filters.hpp: the filters that let a socket read the frames of address claiming.
mod Defs
pub mod Passing
mod Tests
unfoldable pub use Defs.*
