-- ===== src/Statement/Refusals.antt =====
-- When the methods of a statement refuse (ext/sqlite3/statement.c, REQUIRE_LIVE_DB and
-- REQUIRE_OPEN_STMT).
use sqlite3_ruby.Base.{◌≡◌, true, false, none, some}
use sqlite3_ruby.Values.{Ptr, Value, Exception, plain, lit, sqlite3_exception}
use sqlite3_ruby.Env.{Sqlite, Ruby}
use sqlite3_ruby.Machine.{World, raise}
use sqlite3_ruby.Database.Flags.{is_discarded}
use sqlite3_ruby.Statement.Guards.{live_stmt}
use sqlite3_ruby.Statement.Prepare.{sqlite3_rb_close, reset_bang, clear_bindings_bang}
use sqlite3_ruby.Statement.Step.{step}
use sqlite3_ruby.Statement.Bind.{Pack, bind_param}
use sqlite3_ruby.Statement.Columns.{
  column_count, column_name, column_decltype, database_name, bind_parameter_count, named_params,
  get_sql, get_expanded_sql,
}
use sqlite3_ruby.Statement.Stats.{stats_as_hash, stat_for, memused}

abbrev pub discarded_error : Exception
discarded_error =
    plain sqlite3_exception (lit "cannot use a statement associated with a discarded database")

abbrev pub closed_error : Exception
closed_error = plain sqlite3_exception (lit "cannot use a closed statement")

-- Every method that uses the handle, but close, raises `e` at once: no state is changed, no call is
-- made.
pub record Refuses ⦃lib : Sqlite⦄ ⦃rb : Ruby⦄ (e : Exception) (self : Ptr) (w : World)
    : Type 0 where
  pub step_refuses : step self w ≡ raise e w
  pub bind_refuses :
      (pack : Pack) (key value : Value) → bind_param pack self key value w ≡ raise e w
  pub reset_refuses : reset_bang self w ≡ raise e w
  pub clear_refuses : clear_bindings_bang self w ≡ raise e w
  pub column_count_refuses : column_count self w ≡ raise e w
  pub column_name_refuses : (index : Value) → column_name self index w ≡ raise e w
  pub column_decltype_refuses : (index : Value) → column_decltype self index w ≡ raise e w
  pub database_name_refuses : (index : Value) → database_name self index w ≡ raise e w
  pub parameter_count_refuses : bind_parameter_count self w ≡ raise e w
  pub named_params_refuses : named_params self w ≡ raise e w
  pub sql_refuses : get_sql self w ≡ raise e w
  pub expanded_sql_refuses : get_expanded_sql self w ≡ raise e w
  pub stats_refuses : stats_as_hash self w ≡ raise e w
  pub stat_for_refuses : (key : Value) → stat_for self key w ≡ raise e w
  pub memused_refuses : memused self w ≡ raise e w

module _ ⦃lib : Sqlite⦄ ⦃rb : Ruby⦄ (e : Exception) (self : Ptr) (w : World) where
  stat_for_refused : live_stmt self w ≡ raise e w → (key : Value) → stat_for self key w ≡ raise e w
  unfolding stat_for
  stat_for_refused g key = rw g

  Refuses-of_live_stmt : live_stmt self w ≡ raise e w → Refuses e self w
  unfolding step bind_param reset_bang clear_bindings_bang column_count column_name column_decltype
      database_name bind_parameter_count named_params get_sql get_expanded_sql stats_as_hash memused
  Refuses-of_live_stmt g = record {
    step_refuses = rw g;
    bind_refuses = λ pack key value. rw g;
    reset_refuses = rw g;
    clear_refuses = rw g;
    column_count_refuses = rw g;
    column_name_refuses = λ index. rw g;
    column_decltype_refuses = λ index. rw g;
    database_name_refuses = λ index. rw g;
    parameter_count_refuses = rw g;
    named_params_refuses = rw g;
    sql_refuses = rw g;
    expanded_sql_refuses = rw g;
    stats_refuses = rw g;
    stat_for_refuses = stat_for_refused g;
    memused_refuses = rw g;
  }

module _ ⦃lib : Sqlite⦄ ⦃rb : Ruby⦄ (self db : Ptr) (w : World)
    (prepared : (w.statements self).db ≡ some db) where
  -- Once the database of a statement was discarded, every method that uses the statement's handle,
  -- but close, raises SQLite3::Exception before it makes a call, whether the statement is open or closed.
  pub discarded-Refuses : is_discarded (w.databases db) ≡ true → Refuses discarded_error self w
  unfolding live_stmt
  discarded-Refuses h = Refuses-of_live_stmt _ self w (rw (prepared, h))

  -- Once a statement was closed, and its database was not discarded, every method that uses the handle
  -- raises SQLite3::Exception before it makes a call, and so does a second close.
  pub closed-Refuses :
      is_discarded (w.databases db) ≡ false
      → (w.statements self).st ≡ none
      → Refuses closed_error self w × (sqlite3_rb_close self w ≡ raise closed_error w)
  unfolding live_stmt sqlite3_rb_close
  closed-Refuses h e = (Refuses-of_live_stmt _ self w (rw (prepared, h, e)), rw e)
