-- ===== src/Claimer.antt =====
-- include/jay/address_claimer.hpp: the state machine of address claiming with its timer, the events
-- that wait in the io_context, and the network table.
mod Defs
pub mod Startup
pub mod Defence
pub mod Histories
pub mod Contention
pub mod Cancelled
pub mod Late
mod Setup
mod Tests
unfoldable pub use Defs.*
