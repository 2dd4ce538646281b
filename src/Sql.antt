-- ===== src/Sql.antt =====
-- `SqlDBOperation` (src/db/sql_db_operation.hpp): the statements that it sends, and the connections that
-- it leases for them.
pub mod Program
pub mod Urls
pub mod Leases
pub mod Answered
pub mod Dicts
pub mod Operations
pub mod Items
pub mod Skeleton
pub mod Templates
