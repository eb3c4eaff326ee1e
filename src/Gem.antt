-- ===== src/Gem.antt =====
-- lib/sqlite3: the Ruby methods of SQLite3::Statement, ResultSet and Database over those of the extension.
pub mod Metadata
pub mod Statistics
pub mod Binding
pub mod ResultSet
pub mod Quote
pub mod Connection
pub mod Transactions
pub mod Yielding
pub mod Query
pub mod Querying
pub mod Opening
pub mod Batch
pub mod Batching
pub mod Draining
pub mod Permissions
pub mod Readonly
pub mod Fetching
pub mod Execution
pub mod Agreement
pub mod Executing
