-- ===== src/Header.antt =====
-- include/jay/header.hpp: the 29-bit identifier of a J1939 frame and its fields.
mod Defs
pub mod Canary
pub mod Plain
pub mod Fields
pub mod Access
pub mod Parts
mod Tests
unfoldable pub use Defs.*
