-- ===== src/Callbacks/Functions.antt =====
-- What the SQL functions of one call of the library do, as a loop over their calls that knows no
-- state but the log and the exception that waits in rb_errinfo (rb_sqlite3_func in
-- ext/sqlite3/database.c).
use sqlite3_ruby.Base.{◌≡◌, refl, Option, none, some, List, [], ◌∷◌, map, arith}
use sqlite3_ruby.Values.{Ptr, Value, Answer, Exception, returned, raised, plain, runtime_error, lit}
use sqlite3_ruby.Env.{
  Sqlite, Ruby, Log, Datum, SqlValue, Callback, function_called, ruby_call, result_call,
  result_error,
}
use sqlite3_ruby.Machine.{World, ok}
use sqlite3_ruby.Database.Hooks.{call_method}
use sqlite3_ruby.Database.Conversion.{
  params2rb, func_result, rb_sqlite3_func, set_sqlite3_func_result,
}
use sqlite3_ruby.Callbacks.{run_callback, run_callbacks}

-- The callable, the context and the arguments of a call.
abbrev pub FunctionCall : Type 0
FunctionCall = Value × Ptr × List SqlValue

abbrev pub to_callback : FunctionCall → Callback
to_callback (callable, ctx, argv) = function_called callable ctx argv

-- The log, and the exception that waits.
abbrev pub Outcome : Type 0
Outcome = Log × Option Exception

abbrev pub failed : Ptr → Exception → Log → Outcome
failed ctx e log = (result_error ctx ∷ log, some e)

-- The result that the function gave, as SQLite is told it.
abbrev pub reported : Ptr → Option Exception → Option Datum → Log → Outcome
reported ctx waiting none log = failed ctx (plain runtime_error (lit "can't return")) log
reported ctx waiting (some d) log = (result_call ctx d ∷ log, waiting)

module _ ⦃rb : Ruby⦄ where
  abbrev pub after_method : Ptr → Option Exception → Answer Value → Log → Outcome
  after_method ctx waiting (returned v) log = reported ctx waiting (func_result v) log
  after_method ctx waiting (raised e) log = failed ctx e log

  abbrev pub after_params : Value → Ptr → Option Exception → Answer (List Value) → Log → Outcome
  after_params callable ctx waiting (returned params) log =
      let called = ruby_call callable call_method params ∷ log in
      after_method ctx waiting (rb.funcall called) called
  after_params callable ctx waiting (raised e) log = failed ctx e log

  -- The calls in order: each that raises replaces the exception that waits.
  unfoldable pub run_functions : List FunctionCall → Option Exception → Log → Outcome
  run_functions [] waiting log = (log, waiting)
  run_functions ((callable, ctx, argv) ∷ calls) waiting log =
      let (log', waiting') = after_params callable ctx waiting (params2rb argv) log in
      run_functions calls waiting' log'

abbrev pub with_outcome : World → Outcome → World
with_outcome w (log, waiting) = record w { log = log; errinfo = waiting }

module _ ⦃lib : Sqlite⦄ ⦃rb : Ruby⦄ where
  func_lem :
      (callable : Value) (ctx : Ptr) (argv : List SqlValue) (w : World)
      → rb_sqlite3_func callable ctx argv w
        ≡ ok tt (with_outcome w (after_params callable ctx w.errinfo (params2rb argv) w.log))
  unfolding rb_sqlite3_func set_sqlite3_func_result
  func_lem callable ctx argv w = ground arith

  pub run_callbacks-run_functions :
      (calls : List FunctionCall) (w : World)
      → run_callbacks (map to_callback calls) w
        ≡ ok tt (with_outcome w (run_functions calls w.errinfo w.log))
  unfolding run_callbacks run_callback run_functions
  run_callbacks-run_functions [] w = refl
  run_callbacks-run_functions ((callable, ctx, argv) ∷ calls) w =
      let out = after_params callable ctx w.errinfo (params2rb argv) w.log in
      rw (func_lem callable ctx argv w) (run_callbacks-run_functions calls (with_outcome w out))
