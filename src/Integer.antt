-- ===== src/Integer.antt =====
-- ext/sqlite3/sqlite3.c, bignum_to_int64: whether an Integer fits a signed 64-bit word, and the
-- word, in its two implementations.
pub mod Pack
pub mod Digits
pub mod Agree
