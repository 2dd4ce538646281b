-- ===== src/Pool.antt =====
-- db/db_pool_list.hpp and db/sql_db_pool.hpp with interface/db_pool.h: the pool of connections.
pub mod Nodes
mod Defs
pub mod Validity
pub mod Rounds
pub mod Acquire
pub mod Starve
pub mod Recycle
pub mod Destroy
pub mod Locks
unfoldable pub use Defs.*
