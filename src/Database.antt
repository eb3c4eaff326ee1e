-- ===== src/Database.antt =====
-- ext/sqlite3/database.c and database.h: the methods of SQLite3::Database.
pub mod Flags
pub mod Discard
pub mod Lifecycle
pub mod Close
pub mod Open
pub mod Hooks
pub mod Timeout
pub mod Conversion
pub mod Queries
pub mod Batch
pub mod Mark
pub mod Opening
pub mod Opening16
pub mod Deadline
pub mod Handlers
pub mod Rows
pub mod Serving
pub mod Calling
pub mod Connected
pub mod Attaching
pub mod Dropping
pub mod Services
pub mod Hooked
pub mod Histories
pub mod Held
pub mod Pinning
pub mod Marking
pub mod Refusals
pub mod Members
pub mod AggregatePinning
pub mod Faults
