-- ===== src/Network.antt =====
-- include/jay/network.hpp: the table of controllers and addresses on one CAN interface.
mod Defs
pub mod Laws
pub mod Consistent
pub mod Histories
pub mod Search
pub mod Capacity
pub mod Priority
mod Tests
unfoldable pub use Defs.*
