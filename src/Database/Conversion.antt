-- ===== src/Database/Conversion.antt =====
-- ext/sqlite3/database.c: values between SQLite and Ruby, sqlite3val2rb and
-- set_sqlite3_func_result, and the functions and collations defined in Ruby.
use sqlite3_ruby.Base.{
  Bool, true, false, ◌||◌, Option, none, some, List, [], ◌∷◌, ◌++◌, ◌==◌, if◌then◌else◌, ℤ, pos,
}
use sqlite3_ruby.Values.{
  Ptr, Bytes, Encoding, ascii8bit, Str, Value, qnil, fixnum, bignum, float, string, str_new,
  utf8_str_new, freeze, ll2num, runtime_error, Answer, returned, raised, plain, lit, hash_aset,
}
use sqlite3_ruby.Env.{
  SqlValue, Sqlite, Ruby, Datum, null_datum, int64_datum, double_datum, text_datum, blob_datum,
  result_call, result_error, create_function, create_collation,
}
use sqlite3_ruby.Machine.{
  M, pure, ◌>>=◌, ◌>>◌, lift, deref, rb_raise, protect, database, set_database, funcall, invoke,
  invoke_,
}
use sqlite3_ruby.Errors.Raise.{rb_sqlite3_raise}
use sqlite3_ruby.Database.Flags.{require_open_db}
use sqlite3_ruby.Database.Hooks.{call_method}

unfoldable pub sqlite3val2rb : SqlValue → Answer Value
unfolding ll2num
sqlite3val2rb val =
    if val.type_code == 1
    then returned (ll2num val.int64)
    else if val.type_code == 2
    then returned (float val.double)
    else if val.type_code == 3
    then returned (string (freeze (utf8_str_new val.text)))
    else if val.type_code == 4
    then returned (string (freeze (str_new val.blob)))
    else if val.type_code == 5
    then returned qnil
    else raised (plain runtime_error (lit "bad type"))

abbrev is_ascii8bit : Encoding → Bool
is_ascii8bit ascii8bit = true
is_ascii8bit _ = false

-- CLASS_OF(s) == cSqlite3Blob || rb_enc_get_index(s) == rb_ascii8bit_encindex()
abbrev pub is_binary : Str → Bool
is_binary s = s.blob || is_ascii8bit s.encoding

-- The result that the switch sets, or none in its default case. SIZEOF_LONG is 8, so T_BIGNUM falls
-- through to T_FLOAT.
unfoldable pub func_result : ⦃rb : Ruby⦄ → Value → Option Datum
func_result qnil = some null_datum
func_result (fixnum n) = some (int64_datum n)
func_result ⦃rb⦄ (bignum n) = some (double_datum (rb.num2dbl n))
func_result (float x) = some (double_datum x)
func_result (string s) = some (if is_binary s then blob_datum s.bytes else text_datum s.bytes)
func_result _ = none

-- The message of the default case also names the class.
unfoldable pub set_sqlite3_func_result : ⦃rb : Ruby⦄ → Ptr → Value → M (Unit {0})
unfolding func_result
set_sqlite3_func_result ctx result w = elim (func_result result) [
  | none ↦ rb_raise runtime_error "can't return" w
  | some datum ↦ invoke_ (result_call ctx datum) w
]

abbrev pub and_also : Answer Value → Answer (List Value) → Answer (List Value)
and_also (returned v) (returned vs) = returned (v ∷ vs)
and_also (returned v) (raised e) = raised e
and_also (raised e) rest = raised e

-- if (exc_status) { ... }
abbrev pub on_exception : {A : Type 0} → Option A → M (Unit {0}) → M (Unit {0})
on_exception none m = m
on_exception (some a) m = pure tt

-- rb_str_export_to_enc, where there is a default internal encoding.
abbrev pub exported : ⦃rb : Ruby⦄ → Option Encoding → Str → Str
exported none s = s
exported ⦃rb⦄ (some e) s = rb.export_to_enc e s

abbrev pub compare_method : Bytes
compare_method = b'c' ∷ b'o' ∷ b'm' ∷ b'p' ∷ b'a' ∷ b'r' ∷ b'e' ∷ []

-- The arguments of a call, converted in turn.
unfoldable pub params2rb : List SqlValue → Answer (List Value)
params2rb [] = returned []
params2rb (v ∷ vs) = and_also (sqlite3val2rb v) (params2rb vs)

-- `callable` is the pointer that sqlite3_user_data gives back.
unfoldable pub rb_sqlite3_func_protected : ⦃rb : Ruby⦄ → Value → Ptr → List SqlValue → M Value
rb_sqlite3_func_protected callable ctx argv = do
  params ← lift (params2rb argv)
  result ← funcall callable call_method params
  set_sqlite3_func_result ctx result
  pure qnil

unfoldable pub rb_sqlite3_func : ⦃rb : Ruby⦄ → Value → Ptr → List SqlValue → M (Unit {0})
unfolding rb_sqlite3_func_protected
rb_sqlite3_func callable ctx argv = do
  done ← protect (rb_sqlite3_func_protected callable ctx argv)
  on_exception done (invoke_ (result_error ctx))

module _ ⦃lib : Sqlite⦄ ⦃rb : Ruby⦄ where
  unfoldable pub define_function_with_flags : Ptr → Bytes → Value → Value → M Ptr
  define_function_with_flags self name flags block = do
    ctx ← database self
    require_open_db ctx
    db ← deref ctx.db
    text_rep ← lift (rb.num2int flags)
    status ← invoke (create_function db name (rb.proc_arity block) text_rep block)
    rb_sqlite3_raise (some db) status
    set_database self (record ctx { functions = ctx.functions ++ block ∷ [] })
    pure self

  -- SQLITE_UTF8 is 1.
  unfoldable pub define_function : Ptr → Bytes → Value → M Ptr
  define_function self name block = define_function_with_flags self name (fixnum (pos 1)) block

  -- Both strings of a comparison, as the comparator sees them.
  unfoldable pub comparator_arg : Bytes → Value
  comparator_arg b = string (exported rb.internal_encoding (utf8_str_new b))

  unfoldable pub rb_comparator_func : Value → Bytes → Bytes → M ℤ
  rb_comparator_func comparator a b = do
    comparison ← funcall comparator compare_method (comparator_arg a ∷ comparator_arg b ∷ [])
    lift (rb.num2int comparison)

  unfoldable pub collation : Ptr → Bytes → Value → M Ptr
  collation self name comparator = do
    ctx ← database self
    require_open_db ctx
    db ← deref ctx.db
    status ← invoke (create_collation db name comparator)
    rb_sqlite3_raise (some db) status
    set_database self (record ctx { collations = hash_aset name comparator ctx.collations })
    pure self
