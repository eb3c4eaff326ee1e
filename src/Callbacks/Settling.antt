-- ===== src/Callbacks/Settling.antt =====
-- Proofs that each callback returns or raises, and so does each call that makes callbacks.
use sqlite3_ruby.Base.{List, [], ◌∷◌, ◌==◌, arith, Bool-cases, inl, inr}
use sqlite3_ruby.Values.{Ptr, Value}
use sqlite3_ruby.Env.{
  Sqlite, Ruby, SqlValue, Call, Callback, function_called, aggregate_stepped, aggregate_finished,
  compared, traced, busy_called, progressed, authorized,
}
use sqlite3_ruby.Machine.{World, Settles}
use sqlite3_ruby.Outcome.{bind-Settles}
use sqlite3_ruby.Database.Conversion.{
  rb_sqlite3_func, rb_sqlite3_func_protected, rb_comparator_func, set_sqlite3_func_result,
}
use sqlite3_ruby.Database.Hooks.{tracefunc, rb_sqlite3_busy_handler, rb_sqlite3_auth}
use sqlite3_ruby.Database.Timeout.{rb_sqlite3_statement_timeout}
use sqlite3_ruby.Callbacks.{run_callback, run_callbacks, enter}
use sqlite3_ruby.Aggregator.Callbacks.{
  rb_sqlite3_aggregator_step, rb_sqlite3_aggregator_final, rb_sqlite3_aggregate_instance,
  create_instance, remove_instance, rb_sqlite3_aggregate_instance_destroy, call_step, call_finalize,
  rb_sqlite3_protected_funcall,
}

module _ ⦃lib : Sqlite⦄ ⦃rb : Ruby⦄ where
  func-Settles :
      (callable : Value) (ctx : Ptr) (argv : List SqlValue) (w : World)
      → Settles (rb_sqlite3_func callable ctx argv w)
  unfolding rb_sqlite3_func rb_sqlite3_func_protected set_sqlite3_func_result
  func-Settles callable ctx argv w = ground arith

  create-Settles : (aw ctx : Ptr) (w : World) → Settles (create_instance aw ctx w)
  unfolding create_instance rb_sqlite3_protected_funcall
  create-Settles aw ctx w = ground arith

  instance-Settles : (aw ctx : Ptr) (w : World) → Settles (rb_sqlite3_aggregate_instance aw ctx w)
  unfolding rb_sqlite3_aggregate_instance
  instance-Settles aw ctx w = ground (arith, create-Settles aw ctx w)

  call_step-Settles :
      (inst : Ptr) (argv : List SqlValue) (w : World) → Settles (call_step inst argv w)
  unfolding call_step rb_sqlite3_protected_funcall
  call_step-Settles inst argv w = ground arith

  step-Settles :
      (aw ctx : Ptr) (argv : List SqlValue) (w : World)
      → Settles (rb_sqlite3_aggregator_step aw ctx argv w)
  unfolding rb_sqlite3_aggregator_step
  step-Settles aw ctx argv w =
      bind-Settles (rb_sqlite3_aggregate_instance aw ctx w) _ (instance-Settles aw ctx w)
        λ inst v. ground (arith, call_step-Settles inst argv v)

  destroy-Settles :
      (aw ctx : Ptr) (w : World) → Settles (rb_sqlite3_aggregate_instance_destroy aw ctx w)
  unfolding rb_sqlite3_aggregate_instance_destroy remove_instance
  destroy-Settles aw ctx w = ground arith

  call_finalize-Settles : (ctx inst : Ptr) (w : World) → Settles (call_finalize ctx inst w)
  unfolding call_finalize rb_sqlite3_protected_funcall set_sqlite3_func_result
  call_finalize-Settles ctx inst w = ground arith

  final-Settles : (aw ctx : Ptr) (w : World) → Settles (rb_sqlite3_aggregator_final aw ctx w)
  unfolding rb_sqlite3_aggregator_final
  final-Settles aw ctx w =
      bind-Settles (rb_sqlite3_aggregate_instance aw ctx w) _ (instance-Settles aw ctx w) λ inst v.
        elim (Bool-cases ((v.instances inst).exc_status == 0)) [
          | inl clean ↦ rw clean (
              bind-Settles (call_finalize ctx inst v) _ (call_finalize-Settles ctx inst v)
                λ _ u. destroy-Settles aw ctx u)
          | inr failed ↦ rw failed (destroy-Settles aw ctx _)
        ]

  run_callback-Settles : (c : Callback) (w : World) → Settles (run_callback c w)
  unfolding run_callback rb_comparator_func tracefunc rb_sqlite3_busy_handler rb_sqlite3_auth
      rb_sqlite3_statement_timeout
  run_callback-Settles (function_called callable ctx argv) w = func-Settles callable ctx argv w
  run_callback-Settles (aggregate_stepped aw ctx argv) w = step-Settles aw ctx argv w
  run_callback-Settles (aggregate_finished aw ctx) w = final-Settles aw ctx w
  run_callback-Settles (compared comparator a b) w = ground arith
  run_callback-Settles (traced self sql) w = ground arith
  run_callback-Settles (busy_called self count) w = ground arith
  run_callback-Settles (progressed self now) w = ground arith
  run_callback-Settles (authorized self action a b c d) w = ground arith

  run_callbacks-Settles : (cs : List Callback) (w : World) → Settles (run_callbacks cs w)
  unfolding run_callbacks
  run_callbacks-Settles [] w = tt
  run_callbacks-Settles (c ∷ cs) w =
      bind-Settles (run_callback c w) _ (run_callback-Settles c w) λ _ v. run_callbacks-Settles cs v

  pub enter-Settles : (c : Call) (w : World) → Settles (enter c w)
  unfolding enter
  enter-Settles c w =
      bind-Settles (run_callbacks (lib.callbacks (c ∷ w.log)) (record w { log = c ∷ w.log })) _
        (run_callbacks-Settles _ _) λ _ v. tt
