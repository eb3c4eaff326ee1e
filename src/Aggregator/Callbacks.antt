-- ===== src/Aggregator/Callbacks.antt =====
-- ext/sqlite3/aggregator.c: the callbacks xStep and xFinal. `aw` is the wrapper that
-- sqlite3_user_data gives back, `ctx` the context of one execution of the aggregate. rb_protect
-- reports an exception by the status TAG_RAISE, which is 6.
use sqlite3_ruby.Base.{
  ℕ, suc, not, Option, none, some, List, [], ◌∷◌, ◌++◌, ◌==◌, if◌then◌else◌, any,
}
use sqlite3_ruby.Values.{Ptr, Bytes, Value, qnil, fatal}
use sqlite3_ruby.Env.{SqlValue, Sqlite, Ruby, result_error}
use sqlite3_ruby.Machine.{
  Wrapper, Instance, Slot, no_memory, slot_false, slot_nil, slot_instance, M, ok, pure, ◌>>=◌, ◌>>◌,
  when, lift, rb_raise, update, protect, funcall, invoke_,
}
use sqlite3_ruby.Database.Conversion.{params2rb, set_sqlite3_func_result}

abbrev pub tag_raise : ℕ
tag_raise = 6

abbrev pub new_method : Bytes
new_method = b'n' ∷ b'e' ∷ b'w' ∷ []

abbrev pub step_method : Bytes
step_method = b's' ∷ b't' ∷ b'e' ∷ b'p' ∷ []

abbrev pub finalize_method : Bytes
finalize_method = b'f' ∷ b'i' ∷ b'n' ∷ b'a' ∷ b'l' ∷ b'i' ∷ b'z' ∷ b'e' ∷ []

-- What rb_protect returns and stores in `*exc_status`.
abbrev pub protected_result : Option Value → Value × ℕ
protected_result none = (qnil, tag_raise)
protected_result (some v) = (v, 0)

abbrev pub set_instance : Ptr → Instance → M (Unit {0})
set_instance inst i w = ok tt (record w { instances = update w.instances inst i })

abbrev pub set_wrapper : Ptr → Wrapper → M (Unit {0})
set_wrapper aw a w = ok tt (record w { wrappers = update w.wrappers aw a })

abbrev pub set_slot : Ptr → Slot → M (Unit {0})
set_slot ctx s w = ok tt (record w { slots = update w.slots ctx s })

abbrev pub instance_at : Ptr → M Instance
instance_at inst w = ok (w.instances inst) w

abbrev pub wrapper : Ptr → M Wrapper
wrapper aw w = ok (w.wrappers aw) w

abbrev pub handler_klass : Ptr → M Value
handler_klass aw w = ok (w.wrappers aw).handler_klass w

-- rb_class_new_instance: a new object, whose address is the next free one.
abbrev pub new_object : M Ptr
new_object w = ok w.fresh (record w { fresh = suc w.fresh })

-- rb_ary_delete without the object.
unfoldable pub ary_delete : Ptr → List Ptr → List Ptr
ary_delete p [] = []
ary_delete p (q ∷ ary) = if q == p then ary_delete p ary else q ∷ ary_delete p ary

module _ ⦃rb : Ruby⦄ where
  unfoldable pub rb_sqlite3_protected_funcall : Value → Bytes → List Value → M (Value × ℕ)
  rb_sqlite3_protected_funcall self method params = do
    done ← protect (funcall self method params)
    pure (protected_result done)

  -- The branch of rb_sqlite3_aggregate_instance that makes the instance.
  unfoldable pub create_instance : Ptr → Ptr → M Ptr
  create_instance aw ctx = do
    inst ← new_object
    klass ← handler_klass aw
    (handler, exc_status) ← rb_sqlite3_protected_funcall klass new_method []
    set_instance inst (record { handler_instance = handler; exc_status = exc_status })
    a ← wrapper aw
    set_wrapper aw (record a { instances = a.instances ++ inst ∷ [] })
    set_slot ctx (slot_instance inst)
    pure inst

  unfoldable pub rb_sqlite3_aggregate_instance : ⦃lib : Sqlite⦄ → Ptr → Ptr → M Ptr
  rb_sqlite3_aggregate_instance ⦃lib⦄ aw ctx w = elim (w.slots ctx) [
    | no_memory ↦
        if lib.aggregate_memory w.log ctx
        then create_instance aw ctx w
        else rb_raise fatal "SQLite is out-of-memory" w
    | slot_false ↦ create_instance aw ctx w
    | slot_nil ↦ rb_raise fatal "SQLite called us back on an already destroyed aggregate instance" w
    | slot_instance inst ↦ ok inst w
  ]

  -- The branch of rb_sqlite3_aggregate_instance_destroy with an instance.
  unfoldable pub remove_instance : Ptr → Ptr → Ptr → M (Unit {0})
  unfolding ary_delete
  remove_instance aw ctx inst = do
    i ← instance_at inst
    set_instance inst (record i { handler_instance = qnil })
    a ← wrapper aw
    when (not (any (λ q. q == inst) a.instances))
        (rb_raise fatal "must be in instances at that point")
    set_wrapper aw (record a { instances = ary_delete inst a.instances })
    set_slot ctx slot_nil

  unfoldable pub rb_sqlite3_aggregate_instance_destroy : Ptr → Ptr → M (Unit {0})
  rb_sqlite3_aggregate_instance_destroy aw ctx w = elim (w.slots ctx) [
    | no_memory ↦ ok tt w
    | slot_false ↦ ok tt w
    | slot_nil ↦ rb_raise fatal "attempt to destroy aggregate instance twice" w
    | slot_instance inst ↦ remove_instance aw ctx inst w
  ]

  -- The call of `step`, and the status that it leaves.
  unfoldable pub call_step : Ptr → List SqlValue → M (Unit {0})
  call_step inst argv = do
    params ← lift (params2rb argv)
    i ← instance_at inst
    (result, exc_status) ← rb_sqlite3_protected_funcall i.handler_instance step_method params
    set_instance inst (record i { exc_status = exc_status })

  unfoldable pub rb_sqlite3_aggregator_step :
      ⦃lib : Sqlite⦄ → Ptr → Ptr → List SqlValue → M (Unit {0})
  rb_sqlite3_aggregator_step aw ctx argv = do
    inst ← rb_sqlite3_aggregate_instance aw ctx
    i ← instance_at inst
    when (i.exc_status == 0) (call_step inst argv)

  -- The call of `finalize`, if no exception occurred before, and the result for SQLite.
  unfoldable pub call_finalize : Ptr → Ptr → M (Unit {0})
  call_finalize ctx inst = do
    i ← instance_at inst
    (result, exc_status) ← rb_sqlite3_protected_funcall i.handler_instance finalize_method []
    if exc_status == 0 then set_sqlite3_func_result ctx result else invoke_ (result_error ctx)

  unfoldable pub rb_sqlite3_aggregator_final : ⦃lib : Sqlite⦄ → Ptr → Ptr → M (Unit {0})
  rb_sqlite3_aggregator_final aw ctx = do
    inst ← rb_sqlite3_aggregate_instance aw ctx
    i ← instance_at inst
    if i.exc_status == 0 then call_finalize ctx inst else invoke_ (result_error ctx)
    rb_sqlite3_aggregate_instance_destroy aw ctx
