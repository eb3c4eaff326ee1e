-- ===== src/Registration.antt =====
-- ext/sqlite3/sqlite3.c and the init_ functions of the other files: what the extension defines in
-- Ruby when it is loaded.
pub mod Calls
pub mod Methods
pub mod Library
pub mod Sound
