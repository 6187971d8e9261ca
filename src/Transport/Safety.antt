-- ===== src/Transport/Safety.antt =====
-- No access outside of a buffer and no division by zero in include/jay/transport_protocol.hpp, as long
-- as the frames announce and ask for what there is.
pub mod State
pub mod Sending
pub mod Goes
pub mod Handlers
pub mod Ticking
