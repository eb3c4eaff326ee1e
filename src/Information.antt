-- ===== src/Information.antt =====
-- ext/sqlite3/sqlite3.c: the methods of the module SQLite3 that hand over numbers of the library.
use sqlite3_ruby.Base.{Option, none, some, pos, false, Bool, if◌then◌else◌, List, [], ◌∷◌}
use sqlite3_ruby.Values.{Value, qtrue, qfalse, fixnum, ll2num, rtest, Bytes}
use sqlite3_ruby.Env.{Sqlite, Ruby, status_call}
use sqlite3_ruby.Machine.{M, pure, ◌>>=◌, ◌>>◌, lift, log_now, invoke_}

-- RTEST of an argument that may be missing.
abbrev flag_given : Option Value → Bool
flag_given none = false
flag_given (some v) = rtest v

module _ ⦃lib : Sqlite⦄ where
  unfoldable pub libversion : Value
  unfolding ll2num
  libversion = ll2num (pos lib.libversion_number)

  unfoldable pub threadsafe_p : Value
  unfolding ll2num
  threadsafe_p = ll2num (pos lib.threadsafe)

  -- Whether the macro USING_SQLCIPHER was defined.
  unfoldable pub using_sqlcipher : Bool → Value
  using_sqlcipher defined = if defined then qtrue else qfalse

  -- The two entries of the Hash. The result of sqlite3_status is ignored; it stores nothing then,
  -- and both numbers are 0.
  unfoldable pub rb_sqlite3_status : ⦃rb : Ruby⦄ → Value → Option Value → M (List (Bytes × Value))
  rb_sqlite3_status ⦃rb⦄ op_arg reset_flag_arg = do
    op ← lift (rb.num2int op_arg)
    invoke_ (status_call op (flag_given reset_flag_arg))
    log ← log_now
    pure (
        (b'c' ∷ b'u' ∷ b'r' ∷ b'r' ∷ b'e' ∷ b'n' ∷ b't' ∷ [], fixnum (lib.status_current log))
        ∷ (
          b'h' ∷ b'i' ∷ b'g' ∷ b'h' ∷ b'w' ∷ b'a' ∷ b't' ∷ b'e' ∷ b'r' ∷ [],
          fixnum (lib.status_highwater log),
        )
        ∷ [])
