-- ===== src/Connection.antt =====
-- include/jay/j1939_connection.hpp: one endpoint on the bus, between the socket, the network table
-- and the transport protocol.
mod Defs
mod Send
mod Receive
pub mod Addressing
pub mod Writing
pub mod Reading
pub mod Exchange
pub mod Packets
pub mod Reassembly
pub mod Messages
pub mod Transfers
mod Setup
mod Tests
mod MessageTests
unfoldable pub use Defs.*
unfoldable pub use Send.*
unfoldable pub use Receive.*
