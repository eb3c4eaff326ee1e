-- ===== src/Database/Queries.antt =====
-- ext/sqlite3/database.c: the methods that ask the library something, interrupt and the loading of
-- extensions.
use sqlite3_ruby.Base.{Option, none, some, if◌then◌else◌, ℤ, pos}
use sqlite3_ruby.Values.{
  Ptr, Bytes, Value, qnil, qtrue, qfalse, string, str_new, utf8_str_new, ll2num,
}
use sqlite3_ruby.Env.{Sqlite, Ruby, interrupt_call, load_extension, enable_load_extension}
use sqlite3_ruby.Machine.{M, pure, ◌>>=◌, ◌>>◌, lift, deref, database, log_now, invoke, invoke_}
use sqlite3_ruby.Errors.Raise.{rb_sqlite3_raise, rb_sqlite3_raise_msg}
use sqlite3_ruby.Database.Flags.{require_open_db}
use sqlite3_ruby.Database.Open.{string_value_cstr}

-- REQUIRE_OPEN_DB, and the connection.
abbrev pub open_db : Ptr → M Ptr
open_db self = do ctx ← database self; require_open_db ctx; deref ctx.db

-- SQLITE3_UTF8_STR_NEW2, or Qnil of NULL.
abbrev pub utf8_or_nil : Option Bytes → Value
utf8_or_nil none = qnil
utf8_or_nil (some b) = string (utf8_str_new b)

-- The switch of enable_load_extension over Qtrue, Qfalse and a number.
abbrev onoff_param : ⦃rb : Ruby⦄ → Value → M ℤ
onoff_param qtrue = pure (pos 1)
onoff_param qfalse = pure (pos 0)
onoff_param ⦃rb⦄ v = lift (rb.num2int v)

module _ ⦃lib : Sqlite⦄ where
  unfoldable pub total_changes : Ptr → M Value
  total_changes self = do db ← open_db self; log ← log_now; pure (ll2num (lib.total_changes log db))

  unfoldable pub last_insert_row_id : Ptr → M Value
  last_insert_row_id self = do
    db ← open_db self
    log ← log_now
    pure (ll2num (lib.last_insert_rowid log db))

  unfoldable pub interrupt : Ptr → M Ptr
  interrupt self = do db ← open_db self; invoke_ (interrupt_call db); pure self

  unfoldable pub errmsg : Ptr → M Value
  errmsg self = do
    db ← open_db self
    log ← log_now
    pure (string (str_new (lib.errmsg log (some db))))

  unfoldable pub errcode_ : Ptr → M Value
  errcode_ self = do
    db ← open_db self
    log ← log_now
    pure (ll2num (pos (lib.errcode log (some db))))

  unfoldable pub complete_p : Bytes → M Value
  complete_p sql = pure (if lib.complete sql then qtrue else qfalse)

  unfoldable pub changes : Ptr → M Value
  changes self = do db ← open_db self; log ← log_now; pure (ll2num (lib.changes log db))

  unfoldable pub transaction_active_p : Ptr → M Value
  transaction_active_p self = do
    db ← open_db self
    log ← log_now
    pure (if lib.get_autocommit log db then qfalse else qtrue)

  unfoldable pub db_filename : Ptr → Bytes → M Value
  db_filename self db_name = do
    db ← open_db self
    name ← string_value_cstr db_name
    log ← log_now
    pure (utf8_or_nil (lib.db_filename log db name))

  unfoldable pub load_extension_internal : Ptr → Bytes → M Ptr
  load_extension_internal self file = do
    db ← open_db self
    status ← invoke (load_extension db file)
    log ← log_now
    rb_sqlite3_raise_msg status (lib.err_msg_out log)
    pure self

  unfoldable pub enable_load_extension_m : ⦃rb : Ruby⦄ → Ptr → Value → M Ptr
  enable_load_extension_m self onoff = do
    db ← open_db self
    onoffparam ← onoff_param onoff
    status ← invoke (enable_load_extension db onoffparam)
    rb_sqlite3_raise (some db) status
    pure self
