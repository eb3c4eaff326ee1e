-- ===== src/Aggregator/Ends.antt =====
-- Proofs about how the instance of an execution is released (ext/sqlite3/aggregator.c).
use sqlite3_ruby.Base.{
  ◌≡◌, refl, Bool, true, false, Option, some, List, [], ◌∷◌, ◌==◌, any, arith, inl, inr,
  Option-cases, ==_refl, is_some,
}
use sqlite3_ruby.Values.{Ptr, Value, Answer, returned, raised, Answer-cases, qnil, Exception}
use sqlite3_ruby.Env.{Sqlite, Ruby, Log, Datum, result_error, result_call, ruby_call}
use sqlite3_ruby.Machine.{World, slot_nil, ok, update}
use sqlite3_ruby.Database.Conversion.{func_result, set_sqlite3_func_result}
use sqlite3_ruby.Aggregator.Callbacks.{
  finalize_method, rb_sqlite3_protected_funcall, remove_instance,
  rb_sqlite3_aggregate_instance_destroy, rb_sqlite3_aggregator_final, call_finalize,
}
use sqlite3_ruby.Aggregator.Protocol.{finished}
use sqlite3_ruby.Aggregator.Instances.{Running, ary_delete-append, any-append, instance_kept}

-- The answer to the callers of a `finalize`: SQLite has a type for it.
abbrev pub is_supported : ⦃rb : Ruby⦄ → Answer Value → Bool
is_supported ⦃rb⦄ (returned v) = is_some (func_result v)
is_supported ⦃rb⦄ (raised e) = true

-- The method `finalize` of every handler raises, or gives a value that SQLite has a type for.
abbrev pub FinalizeIsSupported : ⦃rb : Ruby⦄ → Type 0
FinalizeIsSupported ⦃rb⦄ =
    (handler : Value) (log : Log)
    → is_supported (rb.funcall (ruby_call handler finalize_method [] ∷ log)) ≡ true

false_is_true : false ≡ true → ⊥
false_is_true h = ground arith

module _ ⦃lib : Sqlite⦄ ⦃rb : Ruby⦄ (aw ctx : Ptr) where
  -- A context whose instance was released: the wrapper lists the `others` again.
  pub record Released (others : List Ptr) (log : Log) (w : World) : Type 0 where
    pub slot : w.slots ctx ≡ slot_nil
    pub instances : (w.wrappers aw).instances ≡ others
    pub log_of : w.log ≡ log

  module _ (inst : Ptr) (others : List Ptr) (new : any (λ q. q == inst) others ≡ false) where
    -- Once the call of `finalize` and the report of the result are over.
    destroyed :
        (handler : Value) (failed : Bool) (log told : Log) (pending : Option Exception) (w : World)
        → Running aw ctx inst handler failed others log w
        → (g : World) × (rb_sqlite3_aggregate_instance_destroy aw ctx
              (record w { log = told; errinfo = pending })
            ≡ ok tt g)
          × Released others told g
    unfolding remove_instance rb_sqlite3_aggregate_instance_destroy
    destroyed handler failed log told pending w r = (
      record w {
        log = told;
        errinfo = pending;
        instances = update w.instances inst (record (w.instances inst) { handler_instance = qnil });
        wrappers = update w.wrappers aw (record (w.wrappers aw) { instances = others });
        slots = update w.slots ctx slot_nil;
      },
      rw (
        r.slot,
        rb_sqlite3_aggregate_instance_destroy,
        r.listed,
        any-append inst others,
        ary_delete-append inst others new,
      ),
      record { slot = rw (==_refl ctx); instances = rw (==_refl aw); log_of = refl },
    )

    pub final_failed :
        (handler : Value) (log : Log) (w : World)
        → Running aw ctx inst handler true others log w
        → (g : World) × (rb_sqlite3_aggregator_final aw ctx w ≡ ok tt g)
          × Released others (result_error ctx ∷ log) g
    unfolding rb_sqlite3_aggregator_final
    final_failed handler log w r =
        let (g, run, out) = destroyed handler true log (result_error ctx ∷ log) w.errinfo w r in
        (g, rw (instance_kept aw ctx inst w r.slot, r.status_of, r.log_of, run), out)

    module _ (handler : Value) (log : Log) (w : World)
        (r : Running aw ctx inst handler false others log w) where
      final_raised :
          (e : Exception)
          → let called = ruby_call handler finalize_method [] ∷ log in
            rb.funcall called ≡ raised e
            → (g : World) × (rb_sqlite3_aggregator_final aw ctx w ≡ ok tt g)
              × Released others (result_error ctx ∷ called) g
      unfolding rb_sqlite3_aggregator_final call_finalize rb_sqlite3_protected_funcall
      final_raised e answer =
          let called = ruby_call handler finalize_method [] ∷ log in
          let (g, run, out) =
            destroyed handler false log (result_error ctx ∷ called) (some e) w r in
          (
            g,
            rw (
              instance_kept aw ctx inst w r.slot,
              r.status_of,
              r.handler_of,
              r.log_of,
              answer,
              run,
            ),
            out,
          )

      final_returned :
          (v : Value) (d : Datum)
          → let called = ruby_call handler finalize_method [] ∷ log in
            rb.funcall called ≡ returned v
            → func_result v ≡ some d
            → (g : World) × (rb_sqlite3_aggregator_final aw ctx w ≡ ok tt g)
              × Released others (result_call ctx d ∷ called) g
      unfolding rb_sqlite3_aggregator_final call_finalize rb_sqlite3_protected_funcall
          set_sqlite3_func_result
      final_returned v d answer datum =
          let called = ruby_call handler finalize_method [] ∷ log in
          let (g, run, out) =
            destroyed handler false log (result_call ctx d ∷ called) w.errinfo w r in
          (
            g,
            rw (
              instance_kept aw ctx inst w r.slot,
              r.status_of,
              r.handler_of,
              r.log_of,
              answer,
              datum,
              run,
            ),
            out,
          )

      -- The end of an execution in which nothing raised before.
      pub final_running :
          is_supported (rb.funcall (ruby_call handler finalize_method [] ∷ log)) ≡ true
          → (g : World) × (rb_sqlite3_aggregator_final aw ctx w ≡ ok tt g)
            × Released others (finished ctx handler log) g
      final_running supported =
          elim (Answer-cases (rb.funcall (ruby_call handler finalize_method [] ∷ log))) [
            | inr (e, answer) ↦ rw answer (final_raised e answer)
            | inl (v, answer) ↦ elim (Option-cases (func_result v)) [
              | inl e ↦ absurd (false_is_true (rw (answer, e) at supported))
              | inr (d, datum) ↦ rw (answer, datum) (final_returned v d answer datum)
            ]
          ]
