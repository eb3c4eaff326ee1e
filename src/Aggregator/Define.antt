-- ===== src/Aggregator/Define.antt =====
-- ext/sqlite3/aggregator.c: rb_sqlite3_define_aggregator2.
use sqlite3_ruby.Base.{◌||◌, some, [], ◌∷◌, ◌++◌, if◌then◌else◌, ℤ, pos, negsuc, ltb_ℤ}
use sqlite3_ruby.Values.{Ptr, Bytes, Value, arg_error}
use sqlite3_ruby.Env.{Sqlite, Ruby, create_aggregate}
use sqlite3_ruby.Machine.{
  M, pure, ◌>>=◌, ◌>>◌, when, lift, deref, rb_raise, database, set_database, funcall, invoke,
}
use sqlite3_ruby.Errors.Raise.{rb_sqlite3_raise}
use sqlite3_ruby.Database.Flags.{require_open_db}
use sqlite3_ruby.Database.Open.{string_value_cstr}
use sqlite3_ruby.Aggregator.Callbacks.{new_object, set_wrapper}

abbrev pub arity_method : Bytes
arity_method = b'a' ∷ b'r' ∷ b'i' ∷ b't' ∷ b'y' ∷ []

module _ ⦃rb : Ruby⦄ where
  -- The arity that the handler declares, or -1.
  unfoldable pub declared_arity : Value → M ℤ
  declared_arity aggregator =
      if rb.respond_to aggregator arity_method
      then (do ruby_arity ← funcall aggregator arity_method []; lift (rb.num2int ruby_arity))
      else pure (negsuc 0)

  unfoldable pub rb_sqlite3_define_aggregator2 : ⦃lib : Sqlite⦄ → Ptr → Value → Bytes → M Ptr
  rb_sqlite3_define_aggregator2 self aggregator ruby_name = do
    ctx ← database self
    require_open_db ctx
    db ← deref ctx.db
    arity ← declared_arity aggregator
    when (ltb_ℤ arity (negsuc 0) || ltb_ℤ (pos 127) arity)
        (rb_raise arg_error "arity out of range -1..127")
    aw ← new_object
    set_wrapper aw (record { handler_klass = aggregator; instances = [] })
    name ← string_value_cstr ruby_name
    status ← invoke (create_aggregate db name arity aw)
    rb_sqlite3_raise (some db) status
    set_database self (record ctx { aggregators = ctx.aggregators ++ aw ∷ [] })
    pure self
