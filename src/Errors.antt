-- ===== src/Errors.antt =====
-- ext/sqlite3/exception.c: from a status code to a raised exception. `status & 0xff` is the
-- remainder by 256.
pub mod Classes
pub mod Raise
pub mod Codes
