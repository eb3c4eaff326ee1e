-- ===== src/Database/Refusals.antt =====
-- When the methods of a database refuse (ext/sqlite3/database.h, REQUIRE_OPEN_DB and
-- REQUIRE_CLOSED_DB).
use sqlite3_ruby.Base.{◌≡◌, none, some, Option, Bool}
use sqlite3_ruby.Values.{Ptr, Bytes, Str, Value, Exception, plain, lit, sqlite3_exception}
use sqlite3_ruby.Env.{Sqlite, Ruby}
use sqlite3_ruby.Machine.{World, raise}
use sqlite3_ruby.Database.Open.{rb_sqlite3_open_v2, rb_sqlite3_open16}
use sqlite3_ruby.Database.Hooks.{
  trace, busy_handler, set_authorizer, set_busy_timeout, set_extended_result_codes,
}
use sqlite3_ruby.Database.Conversion.{define_function_with_flags, define_function, collation}
use sqlite3_ruby.Database.Queries.{
  total_changes, last_insert_row_id, interrupt, errmsg, errcode_, changes, transaction_active_p,
  db_filename, load_extension_internal, enable_load_extension_m,
}
use sqlite3_ruby.Database.Batch.{exec_batch}
use sqlite3_ruby.Aggregator.Define.{rb_sqlite3_define_aggregator2}

abbrev pub closed_database_error : Exception
closed_database_error = plain sqlite3_exception (lit "cannot use a closed database")

abbrev pub already_open_error : Exception
already_open_error = plain sqlite3_exception (lit "cannot open a database that is already open")

-- Every method that uses the connection raises `e` at once: no state is changed, no call is made.
pub record DatabaseRefuses ⦃lib : Sqlite⦄ ⦃rb : Ruby⦄ (e : Exception) (self : Ptr) (w : World)
    : Type 0 where
  pub trace_refuses : (arg given : Option Value) → trace self arg given w ≡ raise e w
  pub busy_refuses : (arg given : Option Value) → busy_handler self arg given w ≡ raise e w
  pub authorizer_refuses : (authorizer : Value) → set_authorizer self authorizer w ≡ raise e w
  pub timeout_refuses : (timeout : Value) → set_busy_timeout self timeout w ≡ raise e w
  pub codes_refuses : (enable : Value) → set_extended_result_codes self enable w ≡ raise e w
  pub function_refuses :
      (name : Bytes) (flags block : Value)
      → define_function_with_flags self name flags block w ≡ raise e w
  pub utf8_function_refuses :
      (name : Bytes) (block : Value) → define_function self name block w ≡ raise e w
  pub aggregator_refuses :
      (aggregator : Value) (name : Bytes)
      → rb_sqlite3_define_aggregator2 self aggregator name w ≡ raise e w
  pub collation_refuses :
      (name : Bytes) (comparator : Value) → collation self name comparator w ≡ raise e w
  pub total_changes_refuses : total_changes self w ≡ raise e w
  pub rowid_refuses : last_insert_row_id self w ≡ raise e w
  pub interrupt_refuses : interrupt self w ≡ raise e w
  pub errmsg_refuses : errmsg self w ≡ raise e w
  pub errcode_refuses : errcode_ self w ≡ raise e w
  pub changes_refuses : changes self w ≡ raise e w
  pub transaction_refuses : transaction_active_p self w ≡ raise e w
  pub filename_refuses : (name : Bytes) → db_filename self name w ≡ raise e w
  pub extension_refuses : (file : Bytes) → load_extension_internal self file w ≡ raise e w
  pub enable_refuses : (onoff : Value) → enable_load_extension_m self onoff w ≡ raise e w
  pub batch_refuses : (sql : Bytes) (as_hash : Bool) → exec_batch self sql as_hash w ≡ raise e w

module _ ⦃lib : Sqlite⦄ ⦃rb : Ruby⦄ (self : Ptr) (w : World) where
  -- On a closed database every method that asks REQUIRE_OPEN_DB raises SQLite3::Exception before it
  -- changes a state or makes a call to the library or to Ruby.
  pub closed-DatabaseRefuses :
      (w.databases self).db ≡ none → DatabaseRefuses closed_database_error self w
  unfolding trace busy_handler set_authorizer set_busy_timeout set_extended_result_codes
      define_function_with_flags define_function rb_sqlite3_define_aggregator2 collation
      total_changes last_insert_row_id interrupt errmsg errcode_ changes transaction_active_p
      db_filename load_extension_internal enable_load_extension_m exec_batch
  closed-DatabaseRefuses e = record {
    trace_refuses = λ arg given. rw e;
    busy_refuses = λ arg given. rw e;
    authorizer_refuses = λ authorizer. rw e;
    timeout_refuses = λ timeout. rw e;
    codes_refuses = λ enable. rw e;
    function_refuses = λ name flags block. rw e;
    utf8_function_refuses = λ name block. rw e;
    aggregator_refuses = λ aggregator name. rw e;
    collation_refuses = λ name comparator. rw e;
    total_changes_refuses = rw e;
    rowid_refuses = rw e;
    interrupt_refuses = rw e;
    errmsg_refuses = rw e;
    errcode_refuses = rw e;
    changes_refuses = rw e;
    transaction_refuses = rw e;
    filename_refuses = λ name. rw e;
    extension_refuses = λ file. rw e;
    enable_refuses = λ onoff. rw e;
    batch_refuses = λ sql as_hash. rw e;
  }

  -- A database that is open is not opened again: both ways of opening raise SQLite3::Exception before
  -- they change a state or make a call, whatever the arguments.
  pub open_database_refuses :
      (db : Ptr) (file : Bytes) (mode : Value) (zvfs : Option Bytes) (file16 : Str)
      → (w.databases self).db ≡ some db
      → (rb_sqlite3_open_v2 self file mode zvfs w ≡ raise already_open_error w)
        × (rb_sqlite3_open16 self file16 w ≡ raise already_open_error w)
  unfolding rb_sqlite3_open_v2 rb_sqlite3_open16
  open_database_refuses db file mode zvfs file16 e = (rw e, rw e)
