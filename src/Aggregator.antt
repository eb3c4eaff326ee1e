-- ===== src/Aggregator.antt =====
-- ext/sqlite3/aggregator.c: aggregates whose handlers are Ruby objects.
pub mod Callbacks
pub mod Define
pub mod Protocol
pub mod Instances
pub mod Creation
pub mod Ends
pub mod Execution
pub mod Listing
pub mod Tracking
pub mod Advancing
pub mod Interleaving
