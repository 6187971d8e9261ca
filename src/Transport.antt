-- ===== src/Transport.antt =====
-- include/jay/transport_protocol.hpp: transfer of up to 1785 bytes in packets of seven, announced to
-- all (BAM) or agreed with one receiver (RTS and CTS).
mod Defs
mod Send
mod Receive
pub mod Broadcast
pub mod Reassembly
pub mod Frames
pub mod Headers
pub mod Stream
pub mod Delivery
pub mod Receiving
pub mod Roundtrip
pub mod Handshake
pub mod Safety
pub mod Timer
pub mod Printing
pub mod Streams
pub mod Interleaving
pub mod Concurrent
pub mod Setup
mod Tests
unfoldable pub use Defs.*
unfoldable pub use Send.*
unfoldable pub use Receive.*
