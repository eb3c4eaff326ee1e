-- ===== src/Aggregator/Creation.antt =====
-- Proofs about how the instance of an execution is made (ext/sqlite3/aggregator.c).
use sqlite3_ruby.Base.{suc, ◌≡◌, refl, true, false, some, [], ◌∷◌, ◌++◌, arith, ==_refl}
use sqlite3_ruby.Values.{Ptr, Value, returned, raised, qnil, Exception}
use sqlite3_ruby.Env.{Sqlite, Ruby, ruby_call}
use sqlite3_ruby.Machine.{World, Slot, no_memory, slot_false, slot_nil, slot_instance, ok, update}
use sqlite3_ruby.Aggregator.Callbacks.{
  new_method, tag_raise, rb_sqlite3_protected_funcall, create_instance,
  rb_sqlite3_aggregate_instance,
}
use sqlite3_ruby.Aggregator.Instances.{Running, is_absent}

module _ ⦃lib : Sqlite⦄ ⦃rb : Ruby⦄ (aw ctx : Ptr) where
  absent_of :
      (w : World) (s : Slot)
      → w.slots ctx ≡ s
      → is_absent (lib.aggregate_memory w.log ctx) s ≡ true
      → rb_sqlite3_aggregate_instance aw ctx w ≡ create_instance aw ctx w
  unfolding rb_sqlite3_aggregate_instance
  absent_of w no_memory e h = rw (e, rb_sqlite3_aggregate_instance, h)
  absent_of w slot_false e h = rw (e, rb_sqlite3_aggregate_instance)
  absent_of w slot_nil e h = ground arith
  absent_of w (slot_instance inst) e h = ground arith

  module _ (w : World)
      (absent : is_absent (lib.aggregate_memory w.log ctx) (w.slots ctx) ≡ true) where
    pub created_returned :
        (handler : Value)
        → let called = ruby_call (w.wrappers aw).handler_klass new_method [] ∷ w.log in
          rb.funcall called ≡ returned handler
          → (g : World) × (rb_sqlite3_aggregate_instance aw ctx w ≡ ok w.fresh g)
            × Running aw ctx w.fresh handler false (w.wrappers aw).instances called g
    unfolding create_instance rb_sqlite3_protected_funcall
    created_returned handler answer = (
      record w {
        fresh = suc w.fresh;
        log = ruby_call (w.wrappers aw).handler_klass new_method [] ∷ w.log;
        instances =
            update w.instances w.fresh (record { handler_instance = handler; exc_status = 0 });
        wrappers =
            update w.wrappers aw
              (record (w.wrappers aw) { instances = (w.wrappers aw).instances ++ w.fresh ∷ [] });
        slots = update w.slots ctx (slot_instance w.fresh);
      },
      rw (absent_of w (w.slots ctx) refl absent, answer),
      record {
        slot = rw (==_refl ctx);
        handler_of = rw (==_refl w.fresh);
        status_of = rw (==_refl w.fresh);
        listed = rw (==_refl aw);
        log_of = refl;
      },
    )

    pub created_raised :
        (e : Exception)
        → let called = ruby_call (w.wrappers aw).handler_klass new_method [] ∷ w.log in
          rb.funcall called ≡ raised e
          → (g : World) × (rb_sqlite3_aggregate_instance aw ctx w ≡ ok w.fresh g)
            × Running aw ctx w.fresh qnil true (w.wrappers aw).instances called g
    unfolding create_instance rb_sqlite3_protected_funcall
    created_raised e answer = (
      record w {
        fresh = suc w.fresh;
        log = ruby_call (w.wrappers aw).handler_klass new_method [] ∷ w.log;
        errinfo = some e;
        instances =
            update w.instances w.fresh (record { handler_instance = qnil; exc_status = tag_raise });
        wrappers =
            update w.wrappers aw
              (record (w.wrappers aw) { instances = (w.wrappers aw).instances ++ w.fresh ∷ [] });
        slots = update w.slots ctx (slot_instance w.fresh);
      },
      rw (absent_of w (w.slots ctx) refl absent, answer),
      record {
        slot = rw (==_refl ctx);
        handler_of = rw (==_refl w.fresh);
        status_of = rw (==_refl w.fresh);
        listed = rw (==_refl aw);
        log_of = refl;
      },
    )
