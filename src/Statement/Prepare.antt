-- ===== src/Statement/Prepare.antt =====
-- ext/sqlite3/statement.c: the life of a statement. SQLite has sqlite3_prepare_v2.
use sqlite3_ruby.Base.{ℕ, Option, ◌∷◌, false, none, some, if◌then◌else◌, is_some}
use sqlite3_ruby.Values.{Ptr, Bytes, Value, qtrue, qfalse, string, utf8_str_new}
use sqlite3_ruby.Env.{Sqlite, Ruby, prepare_v2, finalize, reset_call, clear_bindings}
use sqlite3_ruby.Machine.{
  Statement, M, ok, pure, ◌>>=◌, ◌>>◌, deref, database, set_database, statement, set_statement,
  log_now, invoke_,
}
use sqlite3_ruby.Callbacks.{enter}
use sqlite3_ruby.Errors.Raise.{rb_sqlite3_raise_with_sql}
use sqlite3_ruby.Timespec.{timespecclear}
use sqlite3_ruby.Statement.Guards.{require_open_stmt, live_stmt}

-- The struct as TypedData_Make_Struct leaves it.
unfoldable pub allocate : Ptr → M Ptr
allocate self = do set_statement self (record { st = none; db = none; done_p = false }); pure self

unfoldable pub closed_p : Ptr → M Value
closed_p self = do ctx ← statement self; pure (if is_some ctx.st then qfalse else qtrue)

unfoldable pub done_p : Ptr → M Value
done_p self = do ctx ← statement self; pure (if ctx.done_p then qtrue else qfalse)

unfoldable pub clear_bindings_bang : Ptr → M Ptr
clear_bindings_bang self = do
  st ← live_stmt self
  invoke_ (clear_bindings st)
  ctx ← statement self
  set_statement self (record ctx { done_p = false })
  pure self

module _ ⦃lib : Sqlite⦄ ⦃rb : Ruby⦄ where
  -- `if (s->st) { sqlite3_finalize(s->st); }`; xfree gives the struct back after this.
  unfoldable pub statement_deallocate : Ptr → M (Unit {0})
  statement_deallocate self w = elim (w.statements self).st [
    | none ↦ ok tt w
    | some st ↦ (do status ← enter (finalize st); pure tt) w
  ]

  unfoldable pub sqlite3_rb_close : Ptr → M Ptr
  sqlite3_rb_close self = do
    ctx ← statement self
    require_open_stmt ctx
    st ← deref ctx.st
    status ← enter (finalize st)
    set_statement self (record ctx { st = none })
    pure self

  unfoldable pub reset_bang : Ptr → M Ptr
  reset_bang self = do
    st ← live_stmt self
    status ← enter (reset_call st)
    ctx ← statement self
    set_statement self (record ctx { done_p = false })
    pure self

  -- What follows the call: `ctx` is the struct as it was before, and `st` is the handle that
  -- sqlite3_prepare_v2 stores in it, or NULL. The result is the tail of the SQL text that was not
  -- compiled.
  unfoldable pub prepare_result :
      Ptr → Ptr → Option Ptr → Bytes → Statement → Option Ptr → ℕ → M Value
  prepare_result self db db_handle sql ctx st status = do
    set_statement self (record ctx { db = some db; st = st })
    rb_sqlite3_raise_with_sql db_handle status sql
    db_ctx ← database db
    set_database db (record db_ctx { stmt_deadline = timespecclear })
    log ← log_now
    pure (string (utf8_str_new (lib.tail_out log)))

  -- sqlite3_prepare_v2 sets the handle, its output, to NULL before it compiles the text, so the
  -- callbacks, and an exception that they raise, find the statement without one.
  unfoldable pub prepare : Ptr → Ptr → Bytes → M Value
  prepare self db sql = do
    db_ctx ← database db
    ctx ← statement self
    set_statement self (record ctx { db = some db; st = none })
    log ← log_now
    let call = prepare_v2 db_ctx.db sql
    status ← enter call
    prepare_result self db db_ctx.db sql ctx (lib.handle (call ∷ log)) status
