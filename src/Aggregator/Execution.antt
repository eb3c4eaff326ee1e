-- ===== src/Aggregator/Execution.antt =====
-- A whole execution of an aggregate, as SQLite makes it: xStep for each row, then xFinal
-- (ext/sqlite3/aggregator.c).
use sqlite3_ruby.Base.{◌≡◌, refl, true, false, none, List, [], ◌∷◌, ◌==◌, any, All, inl, inr}
use sqlite3_ruby.Values.{
  Ptr, Value, returned, Answer-cases, qnil, Exception, plain, lit, runtime_error,
}
use sqlite3_ruby.Env.{SqlValue, Sqlite, Ruby, Log, ruby_call, result_error}
use sqlite3_ruby.Machine.{World, M, Run, ok, raise, ◌>>◌, slot_nil}
use sqlite3_ruby.Database.Conversion.{params2rb, func_result, set_sqlite3_func_result}
use sqlite3_ruby.Roundtrip.{HasType}
use sqlite3_ruby.Aggregator.Callbacks.{
  new_method, step_method, finalize_method, call_finalize, rb_sqlite3_protected_funcall,
  rb_sqlite3_aggregate_instance, rb_sqlite3_aggregator_step, rb_sqlite3_aggregator_final,
}
use sqlite3_ruby.Aggregator.Protocol.{returned_or_empty, protocol_steps, protocol}
use sqlite3_ruby.Aggregator.Instances.{
  Running, is_absent, instance_kept, step_failed, step_returned, step_raised,
}
use sqlite3_ruby.Aggregator.Creation.{created_returned, created_raised}
use sqlite3_ruby.Aggregator.Ends.{Released, FinalizeIsSupported, final_failed, final_running}

module _ ⦃lib : Sqlite⦄ ⦃rb : Ruby⦄ (aw ctx : Ptr) where
  unfoldable pub execution : List (List SqlValue) → M (Unit {0})
  execution [] w = rb_sqlite3_aggregator_final aw ctx w
  execution (argv ∷ rows) w = (rb_sqlite3_aggregator_step aw ctx argv >> execution rows) w

  -- The run returns, and ends with the log and the instances of before.
  abbrev pub Ends : Run (Unit {0}) → List Ptr → Log → Type 0
  Ends run others log = (g : World) × (run ≡ ok tt g) × Released aw ctx others log g

  module _ (inst : Ptr) (others : List Ptr) (new : any (λ q. q == inst) others ≡ false) where
    failed_execution :
        (rows : List (List SqlValue)) (handler : Value) (log : Log) (w : World)
        → Running aw ctx inst handler true others log w
        → Ends (execution rows w) others (result_error ctx ∷ log)
    unfolding execution
    failed_execution [] handler log w r = final_failed aw ctx inst others new handler log w r
    failed_execution (argv ∷ rows) handler log w r =
        rw (step_failed aw ctx inst handler others log w argv r)
          (failed_execution rows handler log w r)

    Running-execution :
        (rows : List (List SqlValue)) (handler : Value) (log : Log) (w : World)
        → FinalizeIsSupported
        → All (All HasType) rows
        → Running aw ctx inst handler false others log w
        → Ends (execution rows w) others (protocol_steps ctx handler rows log)
    unfolding execution protocol_steps
    Running-execution [] handler log w supported typed r =
        final_running aw ctx inst others new handler log w r (supported handler log)
    Running-execution (argv ∷ rows) handler log w supported typed r =
        let called = ruby_call handler step_method (returned_or_empty (params2rb argv)) ∷ log in
        elim (Answer-cases (rb.funcall called)) [
          | inl (v, answer) ↦
              let (g, run, next) =
                step_returned aw ctx inst handler others log w argv r typed.0 v answer in
              rw (answer, protocol_steps, run)
                (Running-execution rows handler called g supported typed.1 next)
          | inr (e, answer) ↦
              let (g, run, next) =
                step_raised aw ctx inst handler others log w argv r typed.0 e answer in
              rw (answer, protocol_steps, run) (failed_execution rows handler called g next)
        ]

  -- The callbacks of a context without an instance are those of the context with its new instance.
  execution_from :
      (rows : List (List SqlValue)) (inst : Ptr) (w g : World)
      → rb_sqlite3_aggregate_instance aw ctx w ≡ ok inst g
      → rb_sqlite3_aggregate_instance aw ctx g ≡ ok inst g
      → execution rows w ≡ execution rows g
  unfolding execution rb_sqlite3_aggregator_step rb_sqlite3_aggregator_final
  execution_from [] inst w g e f = rw (e, f)
  execution_from (argv ∷ rows) inst w g e f = rw (e, f)

  -- An execution of an aggregate, from a context that has no instance yet, returns to SQLite; the
  -- Ruby calls, the result and their order are those of the plain loop: `new`, then `step` for each row up
  -- to the first that raises, then `finalize` if none did, and sqlite3_result_error if any raised.
  -- Afterwards the context is marked as destroyed and the wrapper lists the instances that it
  -- listed before. The rows have values of SQLite's types, the library gives the context its memory,
  -- the next free address is none of the listed instances, and a `finalize` that returns gives a
  -- value that SQLite has a type for; nothing is asked of what `new` and `step` answer.
  pub execution-protocol :
      (rows : List (List SqlValue)) (w : World)
      → FinalizeIsSupported
      → All (All HasType) rows
      → is_absent (lib.aggregate_memory w.log ctx) (w.slots ctx) ≡ true
      → any (λ q. q == w.fresh) (w.wrappers aw).instances ≡ false
      → (g : World) × (execution rows w ≡ ok tt g)
        × (g.slots ctx ≡ slot_nil)
        × ((g.wrappers aw).instances ≡ (w.wrappers aw).instances)
        × (g.log ≡ protocol ctx (w.wrappers aw).handler_klass rows w.log)
  unfolding protocol
  execution-protocol rows w supported typed absent new =
      let called = ruby_call (w.wrappers aw).handler_klass new_method [] ∷ w.log in
      let others = (w.wrappers aw).instances in
      elim (Answer-cases (rb.funcall called)) [
        | inl (handler, answer) ↦
            let (g, run, r) = created_returned aw ctx w absent handler answer in
            let (v, ran, out) =
              Running-execution w.fresh others new rows handler called g supported typed r in
            (
              v,
              rw (execution_from rows w.fresh w g run (instance_kept aw ctx w.fresh g r.slot)) ran,
              out.slot,
              out.instances,
              rw answer out.log_of,
            )
        | inr (e, answer) ↦
            let (g, run, r) = created_raised aw ctx w absent e answer in
            let (v, ran, out) = failed_execution w.fresh others new rows qnil called g r in
            (
              v,
              rw (execution_from rows w.fresh w g run (instance_kept aw ctx w.fresh g r.slot)) ran,
              out.slot,
              out.instances,
              rw answer out.log_of,
            )
      ]

module _ ⦃lib : Sqlite⦄ ⦃rb : Ruby⦄ (aw ctx inst : Ptr) where
  -- When nothing raised before and `finalize` returns a value that SQLite has no type for, xFinal
  -- itself raises, through SQLite, and the instance is neither released nor marked as destroyed.
  pub final_unsupported :
      (handler v : Value) (others : List Ptr) (log : Log) (w : World)
      → Running aw ctx inst handler false others log w
      → let called = ruby_call handler finalize_method [] ∷ log in
        rb.funcall called ≡ returned v
        → func_result v ≡ none
        → (e : Exception) × (g : World) × (rb_sqlite3_aggregator_final aw ctx w ≡ raise e g)
          × Running aw ctx inst handler false others called g
  unfolding rb_sqlite3_aggregator_final call_finalize rb_sqlite3_protected_funcall
      set_sqlite3_func_result
  final_unsupported handler v others log w r answer none_of =
      let called = ruby_call handler finalize_method [] ∷ log in
      (
        plain runtime_error (lit "can't return"),
        record w { log = called },
        rw (
          instance_kept aw ctx inst w r.slot,
          r.status_of,
          r.handler_of,
          r.log_of,
          answer,
          none_of,
        ),
        record {
          slot = r.slot;
          handler_of = r.handler_of;
          status_of = r.status_of;
          listed = r.listed;
          log_of = refl;
        },
      )
