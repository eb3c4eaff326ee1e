-- ===== src/Statement/Step.antt =====
-- ext/sqlite3/statement.c, step: SQLITE_ROW is 100 and SQLITE_DONE is 101.
use sqlite3_ruby.Base.{
  ℕ, zero, suc, ◌+◌, true, false, Option, none, some, List, [], ◌==◌, if◌then◌else◌,
}
use sqlite3_ruby.Values.{
  Ptr, Value, qnil, float, string, str_new, utf8_str_new, freeze, ll2num, runtime_error, Answer,
  returned, raised, plain, lit,
}
use sqlite3_ruby.Env.{Sqlite, Ruby, Log, step_call, reset_call}
use sqlite3_ruby.Callbacks.{enter}
use sqlite3_ruby.Machine.{
  Statement, M, ok, raise, pure, ◌>>=◌, ◌>>◌, lift, statement, set_statement, log_now,
}
use sqlite3_ruby.Errors.Raise.{rb_sqlite3_raise}
use sqlite3_ruby.Database.Conversion.{exported, and_also}
use sqlite3_ruby.Statement.Guards.{live_stmt}

-- `rb_errinfo() != Qnil` after the call: a callback's exception is taken out and raised.
unfoldable pub reraise_pending : M (Unit {0})
reraise_pending w = elim w.errinfo [
  | none ↦ ok tt w
  | some e ↦ raise e (record w { errinfo = none })
]

module _ ⦃lib : Sqlite⦄ ⦃rb : Ruby⦄ where
  -- The switch over sqlite3_column_type(stmt, i).
  unfoldable pub column2rb : Log → Ptr → ℕ → Answer Value
  unfolding ll2num
  column2rb log stmt i =
      let t = lib.column_type log stmt i in
      if t == 1
      then returned (ll2num (lib.column_int64 log stmt i))
      else if t == 2
      then returned (float (lib.column_double log stmt i))
      else if t == 3
      then returned (
          string
            (freeze (exported rb.internal_encoding (utf8_str_new (lib.column_text log stmt i)))))
      else if t == 4
      then returned (string (freeze (str_new (lib.column_blob log stmt i))))
      else if t == 5
      then returned qnil
      else raised (plain runtime_error (lit "bad type"))

  -- The loop over the columns: `count` of them from `i` on.
  unfoldable pub columns2rb : Log → Ptr → ℕ → ℕ → Answer (List Value)
  columns2rb log stmt zero i = returned []
  columns2rb log stmt (suc count) i =
      and_also (column2rb log stmt i) (columns2rb log stmt count (i + 1))

  -- The default case of the switch: the error `value` is raised after sqlite3_reset.
  unfoldable pub failed_step : Ptr → Statement → Ptr → ℕ → M (Option (List Value))
  failed_step self ctx stmt value = do
    code ← enter (reset_call stmt)
    set_statement self (record ctx { done_p = false })
    log ← log_now
    rb_sqlite3_raise (lib.db_handle log stmt) value
    pure (some [])

  -- The switch over the result of sqlite3_step; `ctx` is the struct as it was before the call. A row
  -- is a frozen Array; `none` is Qnil.
  unfoldable pub step_result : Ptr → Statement → Ptr → ℕ → M (Option (List Value))
  step_result self ctx stmt value = do
    log ← log_now
    if value == 100
        then (do list ← lift (columns2rb log stmt (lib.column_count log stmt) 0); pure (some list))
        else if value == 101
        then (do set_statement self (record ctx { done_p = true }); pure none)
        else failed_step self ctx stmt value

  -- What is done with the handle that the two checks give.
  unfoldable pub step_live : Ptr → Ptr → M (Option (List Value))
  unfolding step_result failed_step
  step_live self stmt = do
    ctx ← statement self
    if ctx.done_p
        then pure none
        else (do value ← enter (step_call stmt); reraise_pending; step_result self ctx stmt value)

  unfoldable pub step : Ptr → M (Option (List Value))
  unfolding step_live
  step self = do stmt ← live_stmt self; step_live self stmt
