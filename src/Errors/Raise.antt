-- ===== src/Errors/Raise.antt =====
-- ext/sqlite3/exception.c: rb_sqlite3_raise, rb_sqlite3_raise_msg and rb_sqlite3_raise_with_sql,
-- which the macros CHECK, CHECK_MSG and CHECK_PREPARE of exception.h name. SQLite offers
-- sqlite3_error_offset (HAVE_SQLITE3_ERROR_OFFSET).
use sqlite3_ruby.Base.{ℕ, Option, none, some, ℤ}
use sqlite3_ruby.Values.{Bytes, Ptr, Class, c_str, Exception, plain}
use sqlite3_ruby.Env.{Sqlite}
use sqlite3_ruby.Machine.{ok, raise, M}
use sqlite3_ruby.Errors.Classes.{status2klass}

-- The exception of each of the three, with @code, and with @sql and @sql_offset in the last.
abbrev pub coded : Class → Bytes → ℕ → Exception
coded klass msg status = record (plain klass (c_str msg)) { code = some status }

abbrev pub coded_sql : Class → Bytes → ℕ → Bytes → ℤ → Exception
coded_sql klass msg status sql offset = record (coded klass msg status) {
  sql = some sql;
  sql_offset = some offset;
}

module _ ⦃lib : Sqlite⦄ where
  unfoldable pub rb_sqlite3_raise : Option Ptr → ℕ → M (Unit {0})
  unfolding status2klass
  rb_sqlite3_raise db status w = elim (status2klass status) [
    | none ↦ ok tt w
    | some klass ↦ raise (coded klass (lib.errmsg w.log db) status) w
  ]

  -- The message is the caller's, and is freed.
  unfoldable pub rb_sqlite3_raise_msg : ℕ → Bytes → M (Unit {0})
  unfolding status2klass
  rb_sqlite3_raise_msg status msg w = elim (status2klass status) [
    | none ↦ ok tt w
    | some klass ↦ raise (coded klass msg status) w
  ]

  unfoldable pub rb_sqlite3_raise_with_sql : Option Ptr → ℕ → Bytes → M (Unit {0})
  unfolding status2klass
  rb_sqlite3_raise_with_sql db status sql w = elim (status2klass status) [
    | none ↦ ok tt w
    | some klass ↦
        raise (coded_sql klass (lib.errmsg w.log db) status sql (lib.error_offset w.log db)) w
  ]
