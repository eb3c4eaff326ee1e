-- ===== src/Aggregator/Advancing.antt =====
-- Proofs about one event of one of several executions of aggregates (ext/sqlite3/aggregator.c).
use sqlite3_ruby.Base.{
  ◌≡◌, ◌≢◌, refl, true, false, List, [], ◌∷◌, ◌==◌, All, arith, if◌then◌else◌, Bool-cases, inl, inr,
  ==_refl,
}
use sqlite3_ruby.Values.{Ptr, Answer-cases}
use sqlite3_ruby.Env.{SqlValue, Sqlite, Ruby, Log, ruby_call, result_error}
use sqlite3_ruby.Machine.{
  World, Slot, no_memory, slot_false, slot_nil, slot_instance, ok, final, when, invoke_,
}
use sqlite3_ruby.Roundtrip.{HasType}
use sqlite3_ruby.Database.Conversion.{set_sqlite3_func_result}
use sqlite3_ruby.Aggregator.Callbacks.{
  new_method, call_step, call_finalize, create_instance, remove_instance,
  rb_sqlite3_protected_funcall, rb_sqlite3_aggregate_instance,
  rb_sqlite3_aggregate_instance_destroy, rb_sqlite3_aggregator_step, rb_sqlite3_aggregator_final,
}
use sqlite3_ruby.Aggregator.Instances.{params2rb-HasType}
use sqlite3_ruby.Aggregator.Ends.{FinalizeIsSupported}
use sqlite3_ruby.Aggregator.Tracking.{
  IsTracked, Quiet, Made, Removed, lists, Quiet-IsTracked, Made-IsTracked, Removed-IsTracked,
}

module _ ⦃lib : Sqlite⦄ ⦃rb : Ruby⦄ where
  create_instance-Made :
      (aw ctx : Ptr) (w : World)
      → (g : World) × (create_instance aw ctx w ≡ ok w.fresh g) × Made aw ctx w g
  unfolding create_instance rb_sqlite3_protected_funcall
  create_instance-Made aw ctx w =
      let g = final (create_instance aw ctx w) in
      elim (Answer-cases
        (rb.funcall (ruby_call (w.wrappers aw).handler_klass new_method [] ∷ w.log))) [
          | inl (handler, answer) ↦
              (g, rw answer, record { slots = rw answer; wrappers = rw answer; fresh = rw answer })
          | inr (e, answer) ↦
              (g, rw answer, record { slots = rw answer; wrappers = rw answer; fresh = rw answer })
        ]

  call_step-Quiet :
      (inst : Ptr) (argv : List SqlValue) (w : World)
      → All HasType argv
      → (g : World) × (call_step inst argv w ≡ ok tt g) × Quiet w g
  unfolding call_step rb_sqlite3_protected_funcall
  call_step-Quiet inst argv w typed =
      let g = final (call_step inst argv w) in
      let e = params2rb-HasType argv typed in
      (
        g,
        ground (arith, e),
        record {
          slots = ground (arith, e);
          wrappers = ground (arith, e);
          fresh = ground (arith, e);
        },
      )

  call_finalize-Quiet :
      (ctx inst : Ptr) (w : World)
      → FinalizeIsSupported
      → (g : World) × (call_finalize ctx inst w ≡ ok tt g) × Quiet w g
  unfolding call_finalize rb_sqlite3_protected_funcall set_sqlite3_func_result
  call_finalize-Quiet ctx inst w supported =
      let g = final (call_finalize ctx inst w) in
      (
        g,
        ground (arith, supported (w.instances inst).handler_instance w.log),
        record { slots = ground arith; wrappers = ground arith; fresh = ground arith },
      )

  remove_instance-Removed :
      (aw ctx inst : Ptr) (w : World)
      → lists w aw inst ≡ true
      → (g : World) × (remove_instance aw ctx inst w ≡ ok tt g) × Removed aw ctx inst w g
  unfolding remove_instance
  remove_instance-Removed aw ctx inst w listed = (
    final (remove_instance aw ctx inst w),
    rw listed,
    record { slots = rw listed; wrappers = rw listed; fresh = rw listed },
  )

module _ (aw_of : Ptr → Ptr) (ctx : Ptr) where
  -- What an event of the context `ctx` leaves: its slot, and those of the others.
  pub record Advanced (s : Slot) (w g : World) : Type 0 where
    pub tracked : IsTracked aw_of g
    pub slot : g.slots ctx ≡ s
    pub others : (c : Ptr) → (c == ctx) ≡ false → g.slots c ≡ w.slots c

  Quiet-Advanced : (s : Slot) (u w g : World) → Quiet w g → Advanced s u w → Advanced s u g
  Quiet-Advanced s u w g q a = record {
    tracked = Quiet-IsTracked aw_of w g q a.tracked;
    slot = rw q.slots a.slot;
    others = rw q.slots a.others;
  }

  module _ ⦃lib : Sqlite⦄ ⦃rb : Ruby⦄ (memory : (log : Log) → lib.aggregate_memory log ctx ≡ true)
      (w : World) (t : IsTracked aw_of w) (open_slot : w.slots ctx ≢ slot_nil) where
    module _ (absent : (i : Ptr) → w.slots ctx ≢ slot_instance i)
        (made : rb_sqlite3_aggregate_instance (aw_of ctx) ctx w
          ≡ create_instance (aw_of ctx) ctx w) where
      made-Advanced :
          (inst : Ptr) × (g : World) × (rb_sqlite3_aggregate_instance (aw_of ctx) ctx w ≡ ok inst g)
          × Advanced (slot_instance inst) w g
      made-Advanced =
          let (g, run, m) = create_instance-Made (aw_of ctx) ctx w in
          (
            w.fresh,
            g,
            rw made run,
            record {
              tracked = Made-IsTracked aw_of ctx w g t absent m;
              slot = rw (m.slots, ==_refl ctx);
              others = λ c h. rw (m.slots, h);
            },
          )

    instance-Advanced :
        (s : Slot)
        → w.slots ctx ≡ s
        → (inst : Ptr) × (g : World) × (rb_sqlite3_aggregate_instance (aw_of ctx) ctx w ≡ ok inst g)
          × Advanced (slot_instance inst) w g
    unfolding rb_sqlite3_aggregate_instance
    instance-Advanced no_memory e =
        made-Advanced (λ i h. cc) (rw (e, rb_sqlite3_aggregate_instance, memory w.log))
    instance-Advanced slot_false e =
        made-Advanced (λ i h. cc) (rw (e, rb_sqlite3_aggregate_instance))
    instance-Advanced slot_nil e = absurd (open_slot e)
    instance-Advanced (slot_instance inst) e = (
      inst,
      w,
      rw (e, rb_sqlite3_aggregate_instance),
      record { tracked = t; slot = e; others = λ c h. refl },
    )

    -- What xStep does once it has the instance.
    step_run :
        (inst : Ptr) (argv : List SqlValue) (v : World)
        → All HasType argv
        → (g : World) × (when ((v.instances inst).exc_status == 0) (call_step inst argv) v
            ≡ ok tt g)
          × Quiet v g
    step_run inst argv v typed = elim (Bool-cases ((v.instances inst).exc_status == 0)) [
      | inl clean ↦ rw clean (call_step-Quiet inst argv v typed)
      | inr failed ↦ rw failed (v, refl, record { slots = refl; wrappers = refl; fresh = refl })
    ]

    -- What xFinal does with the instance before it is released.
    report_run :
        (inst : Ptr) (v : World)
        → FinalizeIsSupported
        → (g : World) × ((if (v.instances inst).exc_status == 0
                then call_finalize ctx inst
                else invoke_ (result_error ctx))
              v
            ≡ ok tt g)
          × Quiet v g
    report_run inst v supported = elim (Bool-cases ((v.instances inst).exc_status == 0)) [
      | inl clean ↦ rw clean (call_finalize-Quiet ctx inst v supported)
      | inr failed ↦ rw failed (
        record v { log = result_error ctx ∷ v.log },
        refl,
        record { slots = refl; wrappers = refl; fresh = refl },
      )
    ]

    destroy_run :
        (inst : Ptr) (u : World)
        → Advanced (slot_instance inst) w u
        → (g : World) × (rb_sqlite3_aggregate_instance_destroy (aw_of ctx) ctx u ≡ ok tt g)
          × Advanced slot_nil w g
    unfolding rb_sqlite3_aggregate_instance_destroy
    destroy_run inst u a =
        let (g, run, m) =
          remove_instance-Removed (aw_of ctx) ctx inst u (a.tracked.listed ctx inst a.slot) in
        (
          g,
          rw (a.slot, rb_sqlite3_aggregate_instance_destroy) run,
          record {
            tracked = Removed-IsTracked aw_of ctx u g a.tracked inst a.slot m;
            slot = rw (m.slots, ==_refl ctx);
            others = λ c h. rw (m.slots, h) (a.others c h);
          },
        )

    pub step-Advanced :
        (argv : List SqlValue)
        → All HasType argv
        → (inst : Ptr) × (g : World) × (rb_sqlite3_aggregator_step (aw_of ctx) ctx argv w ≡ ok tt g)
          × Advanced (slot_instance inst) w g
    unfolding rb_sqlite3_aggregator_step
    step-Advanced argv typed =
        let (inst, v, found, a) = instance-Advanced (w.slots ctx) refl in
        let (g, run, q) = step_run inst argv v typed in
        (inst, g, rw (found, run), Quiet-Advanced (slot_instance inst) w v g q a)

    pub final-Advanced :
        FinalizeIsSupported
        → (g : World) × (rb_sqlite3_aggregator_final (aw_of ctx) ctx w ≡ ok tt g)
          × Advanced slot_nil w g
    unfolding rb_sqlite3_aggregator_final
    final-Advanced supported =
        let (inst, v, found, a) = instance-Advanced (w.slots ctx) refl in
        let (u, told, q) = report_run inst v supported in
        let (g, run, done) = destroy_run inst u (Quiet-Advanced (slot_instance inst) w v u q a) in
        (g, rw (found, told, run), done)
