-- ===== src/Lib.antt =====
-- A verification development for jay, a header-only C++ library for SAE J1939 on CAN
-- (include/jay/). Everything is a function on explicit state; integers are natural numbers with
-- their wrap-around written out.
--
-- The parts, from the data to the protocols:
-- - Types: include/jay/j1939_type.hpp, the integer types and the special addresses and PGNs.
-- - Name: include/jay/name.hpp, the 64-bit NAME of a controller. Name/Defs has the constructors
--   (make, from_payload), a setter set_X and a getter X for each field, the operators name_lt,
--   name_gt and name_eq, the hash and the conversion to bytes. `rank` is the number by which the
--   operators order names: a lower rank is a higher priority.
-- - Header: include/jay/header.hpp, the 29-bit identifier. The class wraps canary::frame_header of
--   the CAN library, which is a parameter (Header/Canary) with what its documentation says of its
--   setters and getters; Header/Plain is one such type.
-- - Frame: include/jay/frame.hpp, the frames of address claiming. Its to_string, that of
--   include/jay/data.hpp and that of an abort reason (both in Transport/Printing) give the bytes that a
--   std::stringstream has; Base/Text has its hexadecimal output and a reader of it.
-- - Network: include/jay/network.hpp, the table of who owns which address: the two maps
--   name_addr_map_ and addr_name_map_ are association lists, read through addr_of and name_at.
--   Every method holds the mutex from its first to its last step, so it is one function. The
--   identity stands for std::hash of a 64-bit number. std::unordered_map may or may not compare
--   two keys of different hashes that share a bucket; here it does not.
-- - AddressStateMachine: include/jay/address_state_machine.hpp. Defs has the states, events,
--   guards and actions over a world W that the callbacks act on, with the network in it; Table has
--   the transition table row by row. The interpreter of boost::sml is a parameter: IsInterpreter,
--   in Interpreter, says what its documentation says of a table with one region (first enabled row
--   of the state, then exit action, row action, entry action), and first_match is a function that
--   does so.
-- - Claimer: include/jay/address_claimer.hpp. The world of the machine is the record Claimer, with
--   the network table, the pending wait of the one timer, the posted events and what was handed to
--   the outside. `process` takes a frame and `run_posted` runs the next posted event. When the wait is
--   up, `expire` runs its handler at once, or `elapse` puts the handler into a queue, where a new wait
--   cannot cancel it, and `run_queued` runs it later; what comes first, and after what time, is
--   open. In Histories an `Input` is one of these steps, a call of start_address_claim or the failure
--   of the wait, and `history` runs a list of them, in any order. Contention puts two nodes side by
--   side, Cancelled follows a start that is cut short, Late a handler that was queued before its
--   wait was replaced.
-- - Transport: include/jay/transport_protocol.hpp. A handler takes a frame and the state, with the
--   frames sent, the errors reported and the messages delivered as lists. Whether the bus takes a
--   frame is a function of the number of the call. Undefined behaviour (a copy outside of a
--   buffer, a division by zero) is the result `none`. The map of sessions is an association list,
--   which tick goes through in its order. Defs has the data and the frames, Send and Receive the two
--   sides; Safety asks when no call has undefined behaviour, Roundtrip follows a broadcast and
--   Handshake a transfer to one node from the one end to the other, over a bus that takes each frame.
--   Headers says what the header of a delivered message reads back as.
--   Streams, Interleaving and Concurrent mix the frames of two broadcasts in any order.
-- - Connection: include/jay/j1939_connection.hpp. The state is the record Connection, with the
--   transport protocol in it; the socket is the bus of the transport protocol. In Send, `send` takes a
--   message and `send_frame` a frame; in Receive, `on_received` takes what a read ends with, and
--   check_address says whether a frame is for the connection; `none` is undefined behaviour
--   or the call of a callback that is not set. Errors of the transport protocol go through its
--   handler, which is the method on_error, after the call that reports them. Exchange follows a short
--   message, Messages a long one to all and Transfers a long one to one node, from the call of send to
--   the on_data callback of another connection.
-- - Filters: include/jay/filters.hpp, the two filters for a socket. canary::filter is a parameter, the
--   record FilterLib, with what its documentation says.
--
-- The claimer puts what it reads from frames into the network and posts it to the machine; the
-- network is what the guards of the state machine ask (full, claimable, get_address,
-- find_address); the frames are what the machine's callbacks put on the bus and what
-- transport_protocol sends and receives, which the connection addresses, checks and hands over;
-- names are compared by the network and by the machine.
--
-- Loops: search_from counts down end_address - address, and send_packets counts down the window,
-- as the loops of the code do. hex (Base/Text) writes at most eight digits, which are enough for the
-- 32 bits that the code prints; no other fuel is used.
--
-- Not modelled: the socket of boost::asio and its filter options, the callbacks on start, on
-- destroy and on send and the error of a failed write of j1939_connection, the period of the timer
-- of transport_protocol, and the logger and the lengths of the delays of address_claimer.
pub mod Base
pub mod Types
pub mod Name
pub mod Header
pub mod Frame
pub mod Network
pub mod AddressStateMachine
pub mod Transport
pub mod Claimer
pub mod Connection
pub mod Filters
