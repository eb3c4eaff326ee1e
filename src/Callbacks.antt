-- ===== src/Callbacks.antt =====
-- The calls of the library during which it calls back into ext/sqlite3/database.c and aggregator.c.
pub mod Kept
pub mod Keeping
pub mod Settling
pub mod Functions
use sqlite3_ruby.Base.{ℕ, List, [], ◌∷◌}
use sqlite3_ruby.Env.{
  Sqlite, Ruby, Call, Callback, function_called, aggregate_stepped, aggregate_finished, compared,
  traced, busy_called, progressed, authorized,
}
use sqlite3_ruby.Machine.{M, ok, pure, ◌>>=◌, ◌>>◌, log_now, invoke_}
use sqlite3_ruby.Database.Conversion.{rb_sqlite3_func, rb_comparator_func}
use sqlite3_ruby.Database.Hooks.{tracefunc, rb_sqlite3_busy_handler, rb_sqlite3_auth}
use sqlite3_ruby.Database.Timeout.{rb_sqlite3_statement_timeout}
use sqlite3_ruby.Aggregator.Callbacks.{rb_sqlite3_aggregator_step, rb_sqlite3_aggregator_final}

module _ ⦃lib : Sqlite⦄ ⦃rb : Ruby⦄ where
  -- What it answers goes back to the library, which is a function of the log.
  unfoldable pub run_callback : Callback → M (Unit {0})
  run_callback (function_called callable ctx argv) = rb_sqlite3_func callable ctx argv
  run_callback (aggregate_stepped aw ctx argv) = rb_sqlite3_aggregator_step aw ctx argv
  run_callback (aggregate_finished aw ctx) = rb_sqlite3_aggregator_final aw ctx
  run_callback (compared comparator a b) = do
    comparison ← rb_comparator_func comparator a b
    pure tt
  run_callback (traced self sql) = tracefunc self sql
  run_callback (busy_called self count) = do again ← rb_sqlite3_busy_handler self count; pure tt
  run_callback (progressed self now) = do stop ← rb_sqlite3_statement_timeout self now; pure tt
  run_callback (authorized self action a b c d) = do
    code ← rb_sqlite3_auth self action a b c d
    pure tt

  -- An exception that leaves a callback leaves the library too: the rest is not run.
  unfoldable pub run_callbacks : List Callback → M (Unit {0})
  run_callbacks [] w = ok tt w
  run_callbacks (c ∷ cs) w = (run_callback c >> run_callbacks cs) w

  -- A call, its callbacks, and its result.
  unfoldable pub enter : Call → M ℕ
  unfolding run_callbacks
  enter c = do
    invoke_ c
    called ← log_now
    run_callbacks (lib.callbacks called)
    log ← log_now
    pure (lib.status log)
