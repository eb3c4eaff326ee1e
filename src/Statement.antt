-- ===== src/Statement.antt =====
-- ext/sqlite3/statement.c and statement.h: the methods of SQLite3::Statement.
pub mod Guards
pub mod Prepare
pub mod Step
pub mod Bind
pub mod Columns
pub mod Stats
pub mod Refusals
pub mod Invariant
pub mod Closing
pub mod Stepping
pub mod Settling
pub mod Exceptions
pub mod Naming
pub mod Ownership
pub mod Histories
pub mod Finalize
pub mod Each
pub mod Preparing
