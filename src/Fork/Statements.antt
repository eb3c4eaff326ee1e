-- ===== src/Fork/Statements.antt =====
-- The statements of a connection that was dropped in a forked child (ext/sqlite3/database.c,
-- statement.c).
use sqlite3_ruby.Base.{ℕ, ◌≡◌, true, false, some, arith}
use sqlite3_ruby.Values.{Ptr}
use sqlite3_ruby.Env.{Sqlite, Ruby}
use sqlite3_ruby.Machine.{World, Database, final}
use sqlite3_ruby.Database.Flags.{is_discarded}
use sqlite3_ruby.Database.Discard.{sqlite3_rb_close, close_or_discard_db}
use sqlite3_ruby.Database.Lifecycle.{HasFiles}
use sqlite3_ruby.Database.Close.{ended, closes_properly, close_or_discard_db-Ended}
use sqlite3_ruby.Statement.Refusals.{Refuses, discarded_error, discarded-Refuses}

ended_discarded :
    (d : Database) (pid db : ℕ)
    → d.db ≡ some db
    → closes_properly d pid ≡ false
    → is_discarded (ended d pid) ≡ true
ended_discarded d pid db connected foreign = rw (connected, foreign) (ground arith)

module _ ⦃lib : Sqlite⦄ ⦃rb : Ruby⦄ where
  -- After a close of a connection that can write and was made by another process, these methods of each
  -- statement that was prepared on it raise SQLite3::Exception at once, with no call to the library and
  -- no change: step, bind_param, reset!, clear_bindings!, column_count, column_name, column_decltype,
  -- database_name, bind_parameter_count, named_params, sql, expanded_sql, stats_as_hash, stat_for and
  -- memused. Nothing is said of close, closed? and done?, which do not look at the database.
  pub forked_statement-Refuses :
      (self db stmt : Ptr) (w : World)
      → ((p : Ptr) → HasFiles lib p)
      → (w.databases self).db ≡ some db
      → closes_properly (w.databases self) w.pid ≡ false
      → (w.statements stmt).db ≡ some self
      → Refuses discarded_error stmt (final (sqlite3_rb_close self w))
  unfolding sqlite3_rb_close
  forked_statement-Refuses self db stmt w files connected foreign prepared =
      let out = close_or_discard_db-Ended files self w in
      rw out.returns (
        discarded-Refuses stmt self (final (close_or_discard_db self w))
          (rw out.statements prepared)
          (rw out.struct (ended_discarded (w.databases self) w.pid db connected foreign)))
