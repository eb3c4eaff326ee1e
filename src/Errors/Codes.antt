-- ===== src/Errors/Codes.antt =====
-- Proofs about ext/sqlite3/exception.c: which class a status gives, and that the three raising
-- functions agree.
use sqlite3_ruby.Base.{
  ℕ, ◌%◌, ◌≡◌, Option, none, some, arith, leb, ◌==◌, if◌then◌else◌, true, false,
}
use sqlite3_ruby.Values
use sqlite3_ruby.Values.{Class, Bytes, Ptr, Exception}
use sqlite3_ruby.Env.{Sqlite}
use sqlite3_ruby.Machine.{World, Run, ok, raise}
use sqlite3_ruby.Errors.Classes.{cases, select, status2klass, IsResultCode}
use sqlite3_ruby.Errors.Raise.{
  coded, rb_sqlite3_raise, rb_sqlite3_raise_msg, rb_sqlite3_raise_with_sql,
}

-- The primary result code that a class stands for: 27 for the base class SQLite3::Exception, and
-- 28 for a class that no status gives.
unfoldable pub code_of : Class → ℕ
code_of Values.sql_exception = 1
code_of Values.internal_exception = 2
code_of Values.permission_exception = 3
code_of Values.abort_exception = 4
code_of Values.busy_exception = 5
code_of Values.locked_exception = 6
code_of Values.memory_exception = 7
code_of Values.read_only_exception = 8
code_of Values.interrupt_exception = 9
code_of Values.io_exception = 10
code_of Values.corrupt_exception = 11
code_of Values.not_found_exception = 12
code_of Values.full_exception = 13
code_of Values.cant_open_exception = 14
code_of Values.protocol_exception = 15
code_of Values.empty_exception = 16
code_of Values.schema_changed_exception = 17
code_of Values.too_big_exception = 18
code_of Values.constraint_exception = 19
code_of Values.mismatch_exception = 20
code_of Values.misuse_exception = 21
code_of Values.unsupported_exception = 22
code_of Values.authorization_exception = 23
code_of Values.format_exception = 24
code_of Values.range_exception = 25
code_of Values.not_a_database_exception = 26
code_of Values.sqlite3_exception = 27
code_of _ = 28

-- No class is 0.
abbrev pub code_of_result : Option Class → ℕ
code_of_result none = 0
code_of_result (some klass) = code_of klass

-- status2klass is inverted by `code_of` on the low byte of every status: a status of low byte 0 gives
-- no class, each of 1 to 26 gives a class of its own whatever the bits of the extended result code
-- above it are, and the others give the base class.
pub code_of-status2klass :
    (status : ℕ)
    → code_of_result (status2klass status) ≡ (if leb (status % 256) 26 then status % 256 else 27)
unfolding status2klass code_of
code_of-status2klass status = ground arith

-- The run, with the exception that it raises made one without a message, an SQL text and an offset.
abbrev pub class_and_code : {A : Type 0} → Run A → Option (Class × Option ℕ)
class_and_code (raise e w) = some (e.class_of, e.code)
class_and_code _ = none

abbrev pub with_code : ℕ → Option Class → Option (Class × Option ℕ)
with_code status none = none
with_code status (some klass) = some (klass, some status)

module _ ⦃lib : Sqlite⦄ where
  -- On every status CHECK, CHECK_MSG and CHECK_PREPARE raise the class of status2klass, the same one,
  -- with the whole status in @code, or, where that gives no class, none of them raises.
  pub raise_agree :
      (db : Option Ptr) (status : ℕ) (msg sql : Bytes) (w : World)
      → (class_and_code (rb_sqlite3_raise_msg status msg w)
          ≡ class_and_code (rb_sqlite3_raise db status w))
        × (class_and_code (rb_sqlite3_raise_with_sql db status sql w)
            ≡ class_and_code (rb_sqlite3_raise db status w))
        × (class_and_code (rb_sqlite3_raise db status w) ≡ with_code status (status2klass status))
  unfolding rb_sqlite3_raise rb_sqlite3_raise_msg rb_sqlite3_raise_with_sql
  raise_agree db status msg sql w = (ground arith, ground arith, ground arith)

  -- With a status of low byte 0 the three functions return and change nothing.
  pub raise_ok :
      (db : Option Ptr) (status : ℕ) (msg sql : Bytes) (w : World)
      → status % 256 ≡ 0
      → (rb_sqlite3_raise db status w ≡ ok tt w)
        × (rb_sqlite3_raise_msg status msg w ≡ ok tt w)
        × (rb_sqlite3_raise_with_sql db status sql w ≡ ok tt w)
  unfolding rb_sqlite3_raise rb_sqlite3_raise_msg rb_sqlite3_raise_with_sql status2klass
  raise_ok db status msg sql w h = ground arith

  -- CHECK by the test of the status against SQLITE_OK.
  pub raise_of_ok :
      (db : Option Ptr) (status : ℕ) (w : World)
      → (status == 0) ≡ true
      → rb_sqlite3_raise db status w ≡ ok tt w
  unfolding rb_sqlite3_raise status2klass
  raise_of_ok db status w h = ground arith

  error_class :
      (status : ℕ)
      → IsResultCode status
      → (status == 0) ≡ false
      → (klass : Class) × (status2klass status ≡ some klass)
  unfolding status2klass
  error_class status code h = (select (status % 256) cases, ground arith)

  pub raise_of_error :
      (db : Option Ptr) (status : ℕ) (w : World)
      → IsResultCode status
      → (status == 0) ≡ false
      → (e : Exception) × (rb_sqlite3_raise db status w ≡ raise e w)
  unfolding rb_sqlite3_raise
  raise_of_error db status w code h =
      let (klass, k) = error_class status code h in
      (coded klass (lib.errmsg w.log db) status, rw (k, rb_sqlite3_raise))
