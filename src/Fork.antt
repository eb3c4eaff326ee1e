-- ===== src/Fork.antt =====
-- Connections carried across fork() (adr/2024-09-fork-safety.md): the processes and the connections
-- of a program as a sequence of events over the methods of ext/sqlite3/database.c, and the tracking of
-- lib/sqlite3/fork_safety.rb.
pub mod Events
pub mod Safety
pub mod Tracked
pub mod Discarding
pub mod Constructed
pub mod Statements
