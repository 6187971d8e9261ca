-- ===== src/AddressStateMachine.antt =====
-- include/jay/address_state_machine.hpp: dynamic address claiming of one controller, a boost::sml
-- state machine. `Defs` has the state, the guards and the actions, `Table` the transition table
-- and `Interpreter` what runs it.
mod Defs
mod Table
mod Interpreter
pub mod Reactions
pub mod Faults
mod Tests
unfoldable pub use Defs.*
unfoldable pub use Table.*
unfoldable pub use Interpreter.*
