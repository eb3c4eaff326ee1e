-- ===== src/Tests/Demo.antt =====
-- A library with one database and one row, a Ruby whose methods answer nil, and states of them.
use sqlite3_ruby.Base.{
  ℕ, zero, suc, ◌+◌, ◌*◌, ◌-◌, ◌^◌, ◌≤◌, ◌≡◌, refl, true, false, Option, none, some, List, [], ◌∷◌,
  ◌==◌, ltb, if◌then◌else◌, arith, ℤ, pos, negsuc, inl,
}
use sqlite3_ruby.Values.{
  Bytes, Ptr, Value, qnil, fixnum, object, Answer, returned, raised, Exception, plain, lit,
  type_error, runtime_error, other_class,
}
use sqlite3_ruby.Env.{Log, Callback, ruby_call, step_call, exec_sql, Sqlite, Ruby}
use sqlite3_ruby.Machine.{World, Database, no_memory, update}
use sqlite3_ruby.Errors.Classes.{IsResultCode}
use sqlite3_ruby.Integer.Pack.{neg_overflow, neg_sign, zero_sign, pos_sign, pos_overflow, IsPack}
use sqlite3_ruby.Database.Lifecycle.{HasFiles}
use sqlite3_ruby.Database.Discard.{new_struct}
use sqlite3_ruby.Statement.Bind.{Pack}

abbrev pub main_name : Bytes
main_name = b'm' ∷ b'a' ∷ b'i' ∷ b'n' ∷ []

abbrev pub main_only : ℕ → Option Bytes
main_only zero = some main_name
main_only (suc j) = none

-- The callbacks of sqlite3_step and sqlite3_exec.
abbrev pub called_by : List Callback → Log → List Callback
called_by calls (step_call st ∷ log) = calls
called_by calls (exec_sql db sql ∷ log) = calls
called_by calls _ = []

-- A library in which every call has the same status, whatever that is.
abbrev pub lib_calling : List Callback → ℕ → Sqlite
lib_calling calls status = record {
  callbacks = called_by calls;
  status = λ log. status;
  handle = λ log. some 77;
  err_msg_out = λ log. [];
  tail_out = λ log. [];
  exec_rows = λ log.
      ((b'a' ∷ [], some (b'1' ∷ [])) ∷ (b'b' ∷ [], none) ∷ (b'a' ∷ [], some (b'2' ∷ [])) ∷ []) ∷ [];
  errmsg = λ log db. b'n' ∷ b'o' ∷ [];
  errcode = λ log db. 1;
  error_offset = λ log db. negsuc 0;
  changes = λ log db. pos 0;
  total_changes = λ log db. pos 0;
  last_insert_rowid = λ log db. pos 0;
  complete = λ sql. true;
  get_autocommit = λ log db. true;
  db_filename = λ log db name. none;
  db_name = λ log db j. main_only j;
  has_methods = λ log f. true;
  db_handle = λ log st. some 77;
  column_count = λ log st. 2;
  column_type = λ log st i. 1;
  column_int64 = λ log st i. pos (i + 5);
  column_double = λ log st i. 0;
  column_text = λ log st i. [];
  column_blob = λ log st i. [];
  column_name = λ log st i. none;
  column_decltype = λ log st i. none;
  column_database_name = λ log st i. [];
  bind_parameter_count = λ log st. 2;
  bind_parameter_index = λ log st name. pos 1;
  bind_parameter_name = λ log st i. some (b':' ∷ b'x' ∷ []);
  stmt_status = λ log st op. op;
  sql = λ log st. [];
  expanded_sql = λ log st. [];
  aggregate_memory = λ log ctx. true;
  backup_remaining = λ log p. pos 0;
  backup_pagecount = λ log p. pos 1;
  libversion_number = 3050000;
  threadsafe = 1;
  status_current = λ log. pos 0;
  status_highwater = λ log. pos 0;
}

-- No statement makes a callback.
abbrev pub lib_with : ℕ → Sqlite
lib_with = lib_calling []

abbrev pub demo_lib : Sqlite
demo_lib = lib_with 0

abbrev pub demo_codes : (log : Log) → IsResultCode (demo_lib.status log)
demo_codes log = inl refl

abbrev pub demo_int : Value → Answer ℤ
demo_int (fixnum n) = returned n
demo_int _ = raised (plain type_error (lit "no implicit conversion into Integer"))

-- The code points of a string of two bytes each.
abbrev pub units : List ℕ → List ℕ
units (a ∷ b ∷ rest) = (a + 256 * b) ∷ units rest
units _ = []

-- A Ruby in which every method gives the same answer.
abbrev pub rb_with : Answer Value → Ruby
rb_with answer = record {
  num2int = demo_int;
  num2dbl = λ n. 0;
  encode_utf8 = λ s. returned s.bytes;
  codepoints = λ s. returned (units s.bytes);
  frozen_error = λ s. plain (other_class 1) (lit "can't modify frozen String");
  internal_encoding = none;
  export_to_enc = λ e s. s;
  downcase = λ s. s;
  is_standard = λ n. false;
  is_stop_iteration = λ n. n == 2;
  proc_arity = λ v. pos 1;
  respond_to = λ v method. false;
  funcall = λ log. answer;
}

abbrev pub demo_rb : Ruby
demo_rb = rb_with (returned qnil)

-- A Ruby with an aggregate: `new` gives a handler object, `step` nil, and `finalize` the number 7.
abbrev method_answer : Bytes → Answer Value
method_answer [] = returned qnil
method_answer (c ∷ name) =
    if c == b'n'
    then returned (object 12)
    else if c == b'f'
    then returned (fixnum (pos 7))
    else returned qnil

abbrev aggregate_answer : Log → Answer Value
aggregate_answer (ruby_call receiver name args ∷ log) = method_answer name
aggregate_answer _ = returned qnil

abbrev pub aggregate_rb : Ruby
aggregate_rb = record demo_rb { funcall = aggregate_answer }

abbrev pub boom : Exception
boom = plain runtime_error (lit "boom")

-- The connection 77 of a database that the process 10 opened for writing.
abbrev pub open_struct : Database
open_struct = record (new_struct 10) { db = some 77 }

abbrev pub blank : World
blank = record {
  databases = λ p. new_struct 10;
  statements = λ p. record { st = none; db = none; done_p = false };
  backups = λ p. record { p = none };
  columns = λ p. none;
  types = λ p. none;
  remainders = λ p. qnil;
  wrappers = λ p. record { handler_klass = object 9; instances = [] };
  instances = λ p. record { handler_instance = qnil; exc_status = 0 };
  slots = λ p. no_memory;
  fresh = 100;
  log = [];
  errinfo = none;
  pid = 10;
}

-- The database at 1 is open; the statement at 2, with the handle 88, belongs to it; the statement at
-- 3 was closed; a backup at 4 is open.
abbrev pub busy_world : World
busy_world = record blank {
  databases = update blank.databases 1 open_struct;
  statements =
      update (update blank.statements 2 (record { st = some 88; db = some 1; done_p = false })) 3
        (record { st = none; db = some 1; done_p = false });
  backups = update blank.backups 4 (record { p = some 99 });
}

-- The same state in a child process.
abbrev pub child_world : World
child_world = record busy_world { pid = 11 }

pub main_only_ends : (j : ℕ) → 1 ≤ j → main_only j ≡ none
main_only_ends zero h = absurd (omega arith)
main_only_ends (suc j) h = refl

pub demo_files : (db : Ptr) → HasFiles demo_lib db
demo_files db = record {
  count = 1;
  limited = omega arith;
  names_end = λ log j h. main_only_ends j h;
  stores = λ log name op e. (77, refl);
}

-- rb_integer_pack.
abbrev pub demo_pack : Pack
demo_pack (pos zero) = (zero_sign, 0)
demo_pack (pos (suc n)) = if ltb (suc n) (2 ^ 64) then (pos_sign, suc n) else (pos_overflow, 0)
demo_pack (negsuc n) = if ltb n (2 ^ 64) then (neg_sign, 2 ^ 64 - 1 - n) else (neg_overflow, 0)

pub demo_pack-IsPack : (n : ℤ) → IsPack n (demo_pack n).0 (demo_pack n).1
demo_pack-IsPack (pos zero) = (refl, refl)
demo_pack-IsPack (pos (suc n)) = ground arith
demo_pack-IsPack (negsuc n) = ground arith

-- SQLITE_CANTOPEN and SQLITE_BUSY are results of SQLite.
pub cant_open-IsResultCode : IsResultCode 14
cant_open-IsResultCode = ground arith

pub busy-IsResultCode : IsResultCode 5
busy-IsResultCode = ground arith
