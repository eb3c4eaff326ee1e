-- ===== src/Database/Open.antt =====
-- ext/sqlite3/database.c: opening a connection, rb_sqlite3_open_v2, rb_sqlite3_open16 and
-- rb_sqlite3_disable_quirk_mode. Without TAINTING_SUPPORT, with SQLITE_DBCONFIG_DQS_DDL.
use sqlite3_ruby.Base.{
  ℕ, Bool, true, false, not, Option, none, some, [], ◌∷◌, ◌++◌, ◌==◌, any, if◌then◌else◌, pos,
}
use sqlite3_ruby.Values.{
  Ptr, Bytes, Str, Encoding, utf16le, utf16be, Value, qtrue, qfalse, arg_error, ll2num, raised,
}
use sqlite3_ruby.Env.{Sqlite, Ruby, open_v2, open16, close_v2, db_config}
use sqlite3_ruby.Machine.{
  M, pure, ◌>>=◌, ◌>>◌, when, lift, rb_raise, database, set_database, log_now, invoke, invoke_,
}
use sqlite3_ruby.Errors.Raise.{rb_sqlite3_raise_msg}
use sqlite3_ruby.Database.Flags.{require_closed_db, open_readonly, set_readonly}

-- StringValueCStr: a C string has no NUL inside.
abbrev pub string_value_cstr : Bytes → M Bytes
string_value_cstr b =
    if any (λ c. c == 0) b then rb_raise arg_error "string contains null byte" else pure b

abbrev pub optional_cstr : Option Bytes → M (Option Bytes)
optional_cstr none = pure none
optional_cstr (some b) = do c ← string_value_cstr b; pure (some c)

-- UTF16_LE_P or UTF16_BE_P
abbrev pub is_utf16 : Encoding → Bool
is_utf16 utf16le = true
is_utf16 utf16be = true
is_utf16 _ = false

-- The native byte order is little-endian.
abbrev native_utf16 : Encoding
native_utf16 = utf16le

-- SQLITE_DBCONFIG_DQS_DDL and SQLITE_DBCONFIG_DQS_DML
abbrev dqs_ddl : ℕ
dqs_ddl = 1014

abbrev dqs_dml : ℕ
dqs_dml = 1013

module _ ⦃lib : Sqlite⦄ where
  -- What both open functions do with a status other than SQLITE_OK.
  unfoldable pub open_failed : Ptr → ℕ → M (Unit {0})
  open_failed self status = do
    log ← log_now
    ctx ← database self
    let msg = lib.errmsg log ctx.db
    invoke_ (close_v2 ctx.db)
    set_database self (record ctx { db = none })
    rb_sqlite3_raise_msg status msg

  unfoldable pub rb_sqlite3_open_v2 : ⦃rb : Ruby⦄ → Ptr → Bytes → Value → Option Bytes → M Ptr
  rb_sqlite3_open_v2 ⦃rb⦄ self file mode zvfs = do
    ctx ← database self
    require_closed_db ctx
    flags ← lift (rb.num2int mode)
    name ← string_value_cstr file
    vfs ← optional_cstr zvfs
    status ← invoke (open_v2 name flags vfs)
    log ← log_now
    set_database self (record ctx { db = lib.handle log })
    when (not (status == 0)) (open_failed self status)
    ctx' ← database self
    when (open_readonly flags) (set_database self (set_readonly ctx'))
    pure self

  -- utf16_string_value_ptr. The result is the string with two zero bytes appended, and the caller's
  -- string object is that string from then on. rb_str_buf_cat raises for a frozen String.
  unfoldable pub utf16_string_value_ptr : ⦃rb : Ruby⦄ → Str → M Str
  utf16_string_value_ptr ⦃rb⦄ str = do
    let tagged = is_utf16 str.encoding
    let utf16str = if tagged then str else record str { encoding = native_utf16 }
    codepoints ← lift (rb.codepoints utf16str)
    when (any (λ c. c == 0) codepoints) (rb_raise arg_error "string contains null char")
    when str.frozen (lift (raised (rb.frozen_error str)))
    pure (record str { bytes = str.bytes ++ 0 ∷ 0 ∷ [] })

  -- The status, and the string object of the caller after the call.
  unfoldable pub rb_sqlite3_open16 : ⦃rb : Ruby⦄ → Ptr → Str → M (Value × Str)
  rb_sqlite3_open16 self file = do
    ctx ← database self
    require_closed_db ctx
    str ← utf16_string_value_ptr file
    status ← invoke (open16 str.bytes)
    log ← log_now
    set_database self (record ctx { db = lib.handle log })
    when (not (status == 0)) (open_failed self status)
    pure (ll2num (pos status), str)

  unfoldable pub rb_sqlite3_disable_quirk_mode : Ptr → M Value
  rb_sqlite3_disable_quirk_mode self = do
    ctx ← database self
    elim ctx.db [
      | none ↦ pure qfalse
      | some db ↦ (do
        invoke_ (db_config db dqs_ddl 0)
        invoke_ (db_config db dqs_dml 0)
        pure qtrue)
    ]
