-- ===== src/Dict.antt =====
-- std::map as the program uses it (routeTable, socket_set, socket_queue of include/core.h): entries
-- in the order of their keys, which is the order in which an iterator meets them.
mod Defs
mod Laws
mod Keys
unfoldable pub use Defs.*
pub use Laws.*
pub use Keys.*
