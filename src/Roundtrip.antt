-- ===== src/Roundtrip.antt =====
-- Proofs about the conversions between SQLite and Ruby (ext/sqlite3/database.c, statement.c).
use sqlite3_ruby.Base.{
  ◌≡◌, Bool, not, ◌&&◌, none, some, Option, List, ◌∷◌, ◌==◌, ◌<◌, arith, if◌then◌else◌, ℤ,
}
use sqlite3_ruby.Values.{
  Ptr, Value, Bytes, Answer, returned, raised, ll2num, fits_fixnum, utf8_str_new, freeze, Exception,
}
use sqlite3_ruby.Env.{
  SqlValue, Ruby, Log, Datum, null_datum, int64_datum, double_datum, text_datum, blob_datum,
  result_error,
}
use sqlite3_ruby.Machine.{World, Run, ok, raise, final}
use sqlite3_ruby.Integer.Pack.{IsPack, InInt64, bignum_to_int64_in_range}
use sqlite3_ruby.Database.Conversion.{
  sqlite3val2rb, func_result, rb_sqlite3_func, rb_sqlite3_func_protected, set_sqlite3_func_result,
}
use sqlite3_ruby.Statement.Bind.{bind_datum, Pack}

-- The datum that a value of SQLite stands for.
unfoldable pub datum_of : SqlValue → Datum
datum_of v =
    if v.type_code == 1
    then int64_datum v.int64
    else if v.type_code == 2
    then double_datum v.double
    else if v.type_code == 3
    then text_datum v.text
    else if v.type_code == 4
    then blob_datum v.blob
    else null_datum

-- SQLITE_INTEGER to SQLITE_NULL.
abbrev pub HasType : SqlValue → Type 0
HasType v = (0 < v.type_code) × (v.type_code < 6)

-- An integer that is a Bignum in Ruby.
abbrev pub is_big : SqlValue → Bool
is_big v = (v.type_code == 1) && not (fits_fixnum v.int64)

-- What a converted value becomes by `f`.
abbrev pub and_back : (Value → Option Datum) → Answer Value → Option Datum
and_back f (returned v) = f v
and_back f (raised e) = none

abbrev pub answered : Answer Datum → Option Datum
answered (returned d) = some d
answered (raised e) = none

module _ ⦃rb : Ruby⦄ where
  -- A value that an SQL function written in Ruby receives and returns unchanged is the same value for
  -- SQLite, of whatever type; but an integer outside the range of a Fixnum comes back as a REAL.
  pub func_result-sqlite3val2rb :
      (v : SqlValue)
      → HasType v
      → and_back func_result (sqlite3val2rb v)
        ≡ some (if is_big v then double_datum (rb.num2dbl v.int64) else datum_of v)
  unfolding sqlite3val2rb func_result datum_of ll2num
  func_result-sqlite3val2rb v h = ground arith

  -- A value that was read from SQLite and is bound to a parameter is the same value for SQLite, of
  -- whatever type, the integers of a Bignum included: under the documentation of rb_integer_pack,
  -- for an integer of 64 bits, and where String#encode keeps a string that is in UTF-8.
  pub bind_datum-sqlite3val2rb :
      (pack : Pack) (v : SqlValue)
      → ((n : ℤ) → IsPack n (pack n).0 (pack n).1)
      → ((b : Bytes) → rb.encode_utf8 (freeze (utf8_str_new b)) ≡ returned b)
      → HasType v
      → InInt64 v.int64
      → and_back (λ x. answered (bind_datum pack x)) (sqlite3val2rb v) ≡ some (datum_of v)
  unfolding sqlite3val2rb datum_of ll2num bind_datum
  bind_datum-sqlite3val2rb pack v packed same h fits = ground (
    arith,
    same v.text,
    bignum_to_int64_in_range v.int64 (pack v.int64).0 (pack v.int64).1 (packed v.int64) fits,
  )

-- rb_errinfo after the protected part.
abbrev pub errinfo_after : {A : Type 0} → Run A → Option Exception
errinfo_after (raise e w) = some e
errinfo_after r = (final r).errinfo

-- The log after rb_sqlite3_func.
abbrev pub log_after : {A : Type 0} → Ptr → Run A → Log
log_after ctx (raise e w) = result_error ctx ∷ w.log
log_after ctx r = (final r).log

module _ ⦃rb : Ruby⦄ where
  -- No Ruby exception unwinds through SQLite from a function written in Ruby: rb_sqlite3_func returns
  -- for every callable, every arguments and every answer; where its protected part raised, the
  -- exception is in rb_errinfo and the newest call is sqlite3_result_error, and elsewhere the state
  -- is that of the protected part.
  pub rb_sqlite3_func_returns :
      (callable : Value) (ctx : Ptr) (argv : List SqlValue) (w : World)
      → let r = rb_sqlite3_func callable ctx argv w in
        let p = rb_sqlite3_func_protected callable ctx argv w in
        (r ≡ ok tt (final r))
        × ((final r).errinfo ≡ errinfo_after p)
        × ((final r).log ≡ log_after ctx p)
  unfolding rb_sqlite3_func rb_sqlite3_func_protected set_sqlite3_func_result
  rb_sqlite3_func_returns callable ctx argv w = ground arith
