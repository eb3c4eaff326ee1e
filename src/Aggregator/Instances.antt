-- ===== src/Aggregator/Instances.antt =====
-- Proofs about the instance of one execution of an aggregate (ext/sqlite3/aggregator.c).
use sqlite3_ruby.Base.{
  ◌≡◌, refl, Bool, true, false, not, some, List, [], ◌∷◌, ◌++◌, ◌==◌, any, All, arith, ==_refl,
}
use sqlite3_ruby.Values.{Ptr, Value, returned, raised, Exception}
use sqlite3_ruby.Env.{SqlValue, Sqlite, Ruby, Log, ruby_call}
use sqlite3_ruby.Machine.{World, Slot, no_memory, slot_false, slot_instance, ok, update}
use sqlite3_ruby.Database.Conversion.{sqlite3val2rb, params2rb}
use sqlite3_ruby.Roundtrip.{HasType}
use sqlite3_ruby.Aggregator.Protocol.{returned_or_empty}
use sqlite3_ruby.Aggregator.Callbacks.{
  tag_raise, step_method, call_step, ary_delete, rb_sqlite3_protected_funcall,
  rb_sqlite3_aggregate_instance, rb_sqlite3_aggregator_step,
}

-- Whether a context has no instance yet, and memory for one.
abbrev pub is_absent : Bool → Slot → Bool
is_absent memory no_memory = memory
is_absent memory slot_false = true
is_absent memory _ = false

ary_delete_absent :
    (p : Ptr) (ary : List Ptr) → any (λ q. q == p) ary ≡ false → ary_delete p ary ≡ ary
unfolding ary_delete
ary_delete_absent p [] h = refl
ary_delete_absent p (q ∷ ary) h = ground (arith, ary_delete_absent p ary)

-- Taking out the object that was just put at the end.
pub ary_delete-append :
    (p : Ptr) (ary : List Ptr) → any (λ q. q == p) ary ≡ false → ary_delete p (ary ++ p ∷ []) ≡ ary
unfolding ary_delete
ary_delete-append p [] h = ground (arith, ==_refl p)
ary_delete-append p (q ∷ ary) h = ground (arith, ary_delete-append p ary)

pub any-append : (p : Ptr) (ary : List Ptr) → any (λ q. q == p) (ary ++ p ∷ []) ≡ true
any-append p [] = ground (arith, ==_refl p)
any-append p (q ∷ ary) = ground (arith, any-append p ary)

pub params2rb-HasType :
    (argv : List SqlValue)
    → All HasType argv
    → params2rb argv ≡ returned (returned_or_empty (params2rb argv))
unfolding params2rb sqlite3val2rb
params2rb-HasType [] h = refl
params2rb-HasType (v ∷ argv) h = ground (arith, params2rb-HasType argv h.1)

module _ ⦃lib : Sqlite⦄ ⦃rb : Ruby⦄ (aw ctx : Ptr) where
  -- A context that has an instance: its handler and status are those given, the wrapper lists it after
  -- `others`.
  pub record Running (inst : Ptr) (handler : Value) (failed : Bool) (others : List Ptr) (log : Log)
      (w : World) : Type 0 where
    pub slot : w.slots ctx ≡ slot_instance inst
    pub handler_of : (w.instances inst).handler_instance ≡ handler
    pub status_of : ((w.instances inst).exc_status == 0) ≡ not failed
    pub listed : (w.wrappers aw).instances ≡ others ++ inst ∷ []
    pub log_of : w.log ≡ log

  pub instance_kept :
      (inst : Ptr) (w : World)
      → w.slots ctx ≡ slot_instance inst
      → rb_sqlite3_aggregate_instance aw ctx w ≡ ok inst w
  unfolding rb_sqlite3_aggregate_instance
  instance_kept inst w e = rw (e, rb_sqlite3_aggregate_instance)

  module _ (inst : Ptr) (handler : Value) (others : List Ptr) (log : Log) (w : World) where
    pub step_failed :
        (argv : List SqlValue)
        → Running inst handler true others log w
        → rb_sqlite3_aggregator_step aw ctx argv w ≡ ok tt w
    unfolding rb_sqlite3_aggregator_step
    step_failed argv r = rw (instance_kept inst w r.slot, r.status_of)

    module _ (argv : List SqlValue) (r : Running inst handler false others log w)
        (typed : All HasType argv) where
      pub step_returned :
          (v : Value)
          → let called = ruby_call handler step_method (returned_or_empty (params2rb argv)) ∷ log in
            rb.funcall called ≡ returned v
            → (g : World) × (rb_sqlite3_aggregator_step aw ctx argv w ≡ ok tt g)
              × Running inst handler false others called g
      unfolding rb_sqlite3_aggregator_step call_step rb_sqlite3_protected_funcall
      step_returned v answer =
          let called = ruby_call handler step_method (returned_or_empty (params2rb argv)) ∷ log in
          (
            record w {
              log = called;
              instances = update w.instances inst (record (w.instances inst) { exc_status = 0 });
            },
            rw (
              instance_kept inst w r.slot,
              r.status_of,
              params2rb-HasType argv typed,
              r.handler_of,
              r.log_of,
              answer,
            ),
            record {
              slot = r.slot;
              handler_of = rw (==_refl inst) r.handler_of;
              status_of = rw (==_refl inst);
              listed = r.listed;
              log_of = refl;
            },
          )

      pub step_raised :
          (e : Exception)
          → let called = ruby_call handler step_method (returned_or_empty (params2rb argv)) ∷ log in
            rb.funcall called ≡ raised e
            → (g : World) × (rb_sqlite3_aggregator_step aw ctx argv w ≡ ok tt g)
              × Running inst handler true others called g
      unfolding rb_sqlite3_aggregator_step call_step rb_sqlite3_protected_funcall
      step_raised e answer =
          let called = ruby_call handler step_method (returned_or_empty (params2rb argv)) ∷ log in
          (
            record w {
              log = called;
              instances =
                  update w.instances inst (record (w.instances inst) { exc_status = tag_raise });
              errinfo = some e;
            },
            rw (
              instance_kept inst w r.slot,
              r.status_of,
              params2rb-HasType argv typed,
              r.handler_of,
              r.log_of,
              answer,
            ),
            record {
              slot = r.slot;
              handler_of = rw (==_refl inst) r.handler_of;
              status_of = rw (==_refl inst);
              listed = r.listed;
              log_of = refl;
            },
          )
