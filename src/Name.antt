-- ===== src/Name.antt =====
-- include/jay/name.hpp: the 64-bit NAME of a controller, its bit fields, its comparison and its
-- bytes. An object of class `name` is its one field `name_`, a number below 2 ^ 64.
-- A cast to a w-bit integer is `% 2 ^ w`.
mod Defs
mod Fields
mod Order
mod Bytes
mod Make
pub mod Access
mod Tests
unfoldable pub use Defs.*
pub use Fields.*
pub use Order.*
pub use Access.*
pub use Make.*
pub use Bytes.*
