-- ===== src/Database/Hooks.antt =====
-- ext/sqlite3/database.c: the tracer, the busy handler and the authorizer.
use sqlite3_ruby.Base.{ℕ, not, Option, none, some, [], ◌∷◌, ℤ, pos, map}
use sqlite3_ruby.Values.{
  Ptr, Bytes, Value, qnil, qtrue, qfalse, fixnum, string, str_new, nil_p, rtest, ll2num,
}
use sqlite3_ruby.Env.{
  Sqlite, Ruby, trace_hook, busy_hook, authorizer_hook, busy_timeout, extended_result_codes,
}
use sqlite3_ruby.Machine.{
  M, pure, ◌>>=◌, ◌>>◌, lift, deref, database, set_database, funcall, invoke, invoke_,
}
use sqlite3_ruby.Errors.Raise.{rb_sqlite3_raise}
use sqlite3_ruby.Database.Flags.{require_open_db}

-- rb_scan_args(argc, argv, "01", &block), and the block of the call where there is no argument.
abbrev pub scan_block : Option Value → Option Value → Value
scan_block (some qnil) (some b) = b
scan_block (some v) _ = v
scan_block none (some b) = b
scan_block none none = qnil

-- The names of the Ruby methods that the extension calls, as bytes.
abbrev pub call_method : Bytes
call_method = b'c' ∷ b'a' ∷ b'l' ∷ b'l' ∷ []

-- rb_str_new2 of a C string, or Qnil of NULL.
abbrev pub str_or_nil : Option Bytes → Value
str_or_nil none = qnil
str_or_nil (some b) = string (str_new b)

abbrev busy_answer : Value → ℕ
busy_answer qfalse = 0
busy_answer _ = 1

-- SQLITE_OK, SQLITE_DENY and SQLITE_IGNORE are 0, 1 and 2.
abbrev auth_answer : ⦃rb : Ruby⦄ → Value → M ℤ
auth_answer ⦃rb⦄ (fixnum n) = lift (rb.num2int (fixnum n))
auth_answer qtrue = pure (pos 0)
auth_answer qfalse = pure (pos 1)
auth_answer _ = pure (pos 2)

module _ ⦃lib : Sqlite⦄ where
  unfoldable pub tracefunc : ⦃rb : Ruby⦄ → Ptr → Bytes → M (Unit {0})
  tracefunc self sql = do
    ctx ← database self
    result ← funcall ctx.trace_handler call_method (string (str_new sql) ∷ [])
    pure tt

  unfoldable pub trace : Ptr → Option Value → Option Value → M Ptr
  trace self arg given = do
    ctx ← database self
    require_open_db ctx
    let block = scan_block arg given
    set_database self (record ctx { trace_handler = block })
    db ← deref ctx.db
    invoke_ (trace_hook db (not (nil_p block)))
    pure self

  -- The handler's answer to SQLite: 0 gives up, 1 asks for another attempt.
  unfoldable pub rb_sqlite3_busy_handler : ⦃rb : Ruby⦄ → Ptr → ℕ → M ℕ
  unfolding ll2num
  rb_sqlite3_busy_handler self count = do
    ctx ← database self
    result ← funcall ctx.busy_handler call_method (ll2num (pos count) ∷ [])
    pure (busy_answer result)

  unfoldable pub busy_handler : Ptr → Option Value → Option Value → M Ptr
  busy_handler self arg given = do
    ctx ← database self
    require_open_db ctx
    let block = scan_block arg given
    set_database self (record ctx { busy_handler = block })
    db ← deref ctx.db
    status ← invoke (busy_hook db (not (nil_p block)))
    rb_sqlite3_raise (some db) status
    pure self

  -- The code that SQLite takes from the authorizer.
  unfoldable pub rb_sqlite3_auth :
      ⦃rb : Ruby⦄ → Ptr → ℤ → Option Bytes → Option Bytes → Option Bytes → Option Bytes → M ℤ
  unfolding ll2num
  rb_sqlite3_auth self action a b c d = do
    ctx ← database self
    let args = ll2num action ∷ map str_or_nil (a ∷ b ∷ c ∷ d ∷ [])
    result ← funcall ctx.authorizer call_method args
    auth_answer result

  unfoldable pub set_authorizer : Ptr → Value → M Ptr
  set_authorizer self authorizer = do
    ctx ← database self
    require_open_db ctx
    db ← deref ctx.db
    status ← invoke (authorizer_hook db (not (nil_p authorizer)))
    rb_sqlite3_raise (some db) status
    set_database self (record ctx { authorizer = authorizer })
    pure self

  unfoldable pub set_busy_timeout : ⦃rb : Ruby⦄ → Ptr → Value → M Ptr
  set_busy_timeout ⦃rb⦄ self timeout = do
    ctx ← database self
    require_open_db ctx
    db ← deref ctx.db
    ms ← lift (rb.num2int timeout)
    status ← invoke (busy_timeout db ms)
    rb_sqlite3_raise (some db) status
    pure self

  unfoldable pub set_extended_result_codes : Ptr → Value → M Ptr
  set_extended_result_codes self enable = do
    ctx ← database self
    require_open_db ctx
    db ← deref ctx.db
    status ← invoke (extended_result_codes db (rtest enable))
    rb_sqlite3_raise (some db) status
    pure self
