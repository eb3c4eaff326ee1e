-- ===== src/Callbacks/Keeping.antt =====
-- Proofs that each callback leaves statements, backups, connections and handles alone.
use sqlite3_ruby.Base.{◌≡◌, ℕ, refl, List, [], ◌∷◌, ◌==◌, arith, Option, Bool-cases, inl, inr, ℤ}
use sqlite3_ruby.Values.{Ptr, Bytes, Value}
use sqlite3_ruby.Env.{
  Sqlite, Ruby, SqlValue, Timespec, Call, result_error, Callback, function_called,
  aggregate_stepped, aggregate_finished, compared, traced, busy_called, progressed, authorized,
}
use sqlite3_ruby.Machine.{
  Slot, no_memory, slot_false, slot_nil, slot_instance, World, M, ok, pure, ◌>>=◌, invoke_, final,
}
use sqlite3_ruby.Database.Conversion.{
  rb_sqlite3_func, rb_sqlite3_func_protected, rb_comparator_func, set_sqlite3_func_result,
}
use sqlite3_ruby.Database.Hooks.{tracefunc, rb_sqlite3_busy_handler, rb_sqlite3_auth}
use sqlite3_ruby.Database.Timeout.{rb_sqlite3_statement_timeout}
use sqlite3_ruby.Callbacks.{run_callback, run_callbacks, enter}
use sqlite3_ruby.Aggregator.Callbacks.{
  rb_sqlite3_aggregator_step, rb_sqlite3_aggregator_final, rb_sqlite3_aggregate_instance,
  create_instance, remove_instance, rb_sqlite3_aggregate_instance_destroy, call_step, call_finalize,
  rb_sqlite3_protected_funcall,
}
use sqlite3_ruby.Callbacks.Kept.{Kept, Kept-refl, bind-Kept, then-Kept}

module _ ⦃lib : Sqlite⦄ ⦃rb : Ruby⦄ where
  func-Kept :
      (callable : Value) (ctx : Ptr) (argv : List SqlValue) (w : World)
      → Kept w (final (rb_sqlite3_func callable ctx argv w))
  unfolding rb_sqlite3_func rb_sqlite3_func_protected set_sqlite3_func_result
  func-Kept callable ctx argv w = grind arith

  progress-Kept :
      (self : Ptr) (now : Timespec) (w : World)
      → Kept w (final (rb_sqlite3_statement_timeout self now w))
  unfolding rb_sqlite3_statement_timeout
  progress-Kept self now w = grind arith

  create-Kept : (aw ctx : Ptr) (w : World) → Kept w (final (create_instance aw ctx w))
  unfolding create_instance rb_sqlite3_protected_funcall
  create-Kept aw ctx w = grind arith

  slot-Kept :
      (aw ctx : Ptr) (w : World) (s : Slot)
      → w.slots ctx ≡ s
      → Kept w (final (rb_sqlite3_aggregate_instance aw ctx w))
  unfolding rb_sqlite3_aggregate_instance
  slot-Kept aw ctx w no_memory e = elim (Bool-cases (lib.aggregate_memory w.log ctx)) [
    | inl memory ↦ rw (e, rb_sqlite3_aggregate_instance) (rw memory (create-Kept aw ctx w))
    | inr out ↦ rw (e, rb_sqlite3_aggregate_instance) (rw out (Kept-refl w))
  ]
  slot-Kept aw ctx w slot_false e = rw (e, rb_sqlite3_aggregate_instance) (create-Kept aw ctx w)
  slot-Kept aw ctx w slot_nil e = rw (e, rb_sqlite3_aggregate_instance) (Kept-refl w)
  slot-Kept aw ctx w (slot_instance inst) e = rw (e, rb_sqlite3_aggregate_instance) (Kept-refl w)

  instance-Kept :
      (aw ctx : Ptr) (w : World) → Kept w (final (rb_sqlite3_aggregate_instance aw ctx w))
  instance-Kept aw ctx w = slot-Kept aw ctx w (w.slots ctx) refl

  call_step-Kept :
      (inst : Ptr) (argv : List SqlValue) (w : World) → Kept w (final (call_step inst argv w))
  unfolding call_step rb_sqlite3_protected_funcall
  call_step-Kept inst argv w = grind arith

  step-Kept :
      (aw ctx : Ptr) (argv : List SqlValue) (w : World)
      → Kept w (final (rb_sqlite3_aggregator_step aw ctx argv w))
  unfolding rb_sqlite3_aggregator_step
  step-Kept aw ctx argv w =
      bind-Kept (rb_sqlite3_aggregate_instance aw ctx w) _ w (instance-Kept aw ctx w) λ inst v.
        elim (Bool-cases ((v.instances inst).exc_status == 0)) [
          | inl clean ↦ rw clean (call_step-Kept inst argv v)
          | inr failed ↦ rw failed (Kept-refl v)
        ]

  destroy-Kept :
      (aw ctx : Ptr) (w : World) → Kept w (final (rb_sqlite3_aggregate_instance_destroy aw ctx w))
  unfolding rb_sqlite3_aggregate_instance_destroy remove_instance
  destroy-Kept aw ctx w = grind arith

  call_finalize-Kept : (ctx inst : Ptr) (w : World) → Kept w (final (call_finalize ctx inst w))
  unfolding call_finalize rb_sqlite3_protected_funcall set_sqlite3_func_result
  call_finalize-Kept ctx inst w = grind arith

  error-Kept : (ctx : Ptr) (w : World) → Kept w (final (invoke_ (result_error ctx) w))
  error-Kept ctx w = grind arith

  final-Kept : (aw ctx : Ptr) (w : World) → Kept w (final (rb_sqlite3_aggregator_final aw ctx w))
  unfolding rb_sqlite3_aggregator_final
  final-Kept aw ctx w =
      bind-Kept (rb_sqlite3_aggregate_instance aw ctx w) _ w (instance-Kept aw ctx w) λ inst v.
        elim (Bool-cases ((v.instances inst).exc_status == 0)) [
          | inl clean ↦ rw clean (
              then-Kept (call_finalize ctx inst) (rb_sqlite3_aggregate_instance_destroy aw ctx)
                (call_finalize-Kept ctx inst) (destroy-Kept aw ctx) v)
          | inr failed ↦ rw failed (
              then-Kept (invoke_ (result_error ctx)) (rb_sqlite3_aggregate_instance_destroy aw ctx)
                (error-Kept ctx) (destroy-Kept aw ctx) v)
        ]

  compared-Kept :
      (comparator : Value) (a b : Bytes) (w : World)
      → Kept w (final (rb_comparator_func comparator a b w))
  unfolding rb_comparator_func
  compared-Kept comparator a b w = grind arith

  traced-Kept : (self : Ptr) (sql : Bytes) (w : World) → Kept w (final (tracefunc self sql w))
  unfolding tracefunc
  traced-Kept self sql w = grind arith

  busy-Kept :
      (self : Ptr) (count : ℕ) (w : World) → Kept w (final (rb_sqlite3_busy_handler self count w))
  unfolding rb_sqlite3_busy_handler
  busy-Kept self count w = grind arith

  authorized-Kept :
      (self : Ptr) (action : ℤ) (a b c d : Option Bytes) (w : World)
      → Kept w (final (rb_sqlite3_auth self action a b c d w))
  unfolding rb_sqlite3_auth
  authorized-Kept self action a b c d w = grind arith

  answered-Kept :
      {A : Type 0} (m : M A) (w : World)
      → Kept w (final (m w))
      → Kept w (final ((m >>= λ _. pure tt) w))
  answered-Kept m w h = bind-Kept (m w) (λ _. pure tt) w h (λ a v. Kept-refl v)

  run_callback-Kept : (c : Callback) (w : World) → Kept w (final (run_callback c w))
  unfolding run_callback
  run_callback-Kept (function_called callable ctx argv) w = func-Kept callable ctx argv w
  run_callback-Kept (aggregate_stepped aw ctx argv) w = step-Kept aw ctx argv w
  run_callback-Kept (aggregate_finished aw ctx) w = final-Kept aw ctx w
  run_callback-Kept (compared comparator a b) w =
      answered-Kept (rb_comparator_func comparator a b) w (compared-Kept comparator a b w)
  run_callback-Kept (traced self sql) w = traced-Kept self sql w
  run_callback-Kept (busy_called self count) w =
      answered-Kept (rb_sqlite3_busy_handler self count) w (busy-Kept self count w)
  run_callback-Kept (progressed self now) w =
      answered-Kept (rb_sqlite3_statement_timeout self now) w (progress-Kept self now w)
  run_callback-Kept (authorized self action a b c d) w =
      answered-Kept (rb_sqlite3_auth self action a b c d) w (authorized-Kept self action a b c d w)

  run_callbacks-Kept : (cs : List Callback) (w : World) → Kept w (final (run_callbacks cs w))
  unfolding run_callbacks
  run_callbacks-Kept [] w = Kept-refl w
  run_callbacks-Kept (c ∷ cs) w =
      then-Kept (run_callback c) (run_callbacks cs) (run_callback-Kept c) (run_callbacks-Kept cs) w

  -- What the callbacks of a call leave, against the state in which the call begins.
  pub enter-Kept : (c : Call) (w : World) → Kept (record w { log = c ∷ w.log }) (final (enter c w))
  unfolding enter
  enter-Kept c w =
      let called = record w { log = c ∷ w.log } in
      bind-Kept (run_callbacks (lib.callbacks called.log) called) (λ _ v. ok (lib.status v.log) v)
        called (run_callbacks-Kept _ called) (λ _ v. Kept-refl v)
