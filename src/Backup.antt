-- ===== src/Backup.antt =====
-- ext/sqlite3/backup.c and backup.h: the methods of SQLite3::Backup.
pub mod Methods
pub mod Lifecycle
pub mod Histories
