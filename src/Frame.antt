-- ===== src/Frame.antt =====
-- include/jay/frame.hpp: a J1939 frame and the frames of address claiming.
mod Defs
pub mod Archetypes
pub mod Printing
mod Tests
unfoldable pub use Defs.*
