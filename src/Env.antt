-- ===== src/Env.antt =====
-- What the extension relies on and does not implement: the sqlite3 library and the Ruby runtime.
-- A call that can change their state is an entry of a log; what they answer is any function of the
-- log, whose newest entry comes first. So a library and a program of any state are instances.
use sqlite3_ruby.Base.{ℕ, Bool, Option, List, ℤ}
use sqlite3_ruby.Values.{Exception, Bytes, Ptr, Encoding, Str, Value, Answer}

-- The value that a bind, or a result of an SQL function, carries.
pub data Datum : Type 0 where
  null_datum : Datum
  int64_datum : ℤ → Datum
  double_datum : ℕ → Datum
  text_datum : Bytes → Datum
  text16_datum : Bytes → Datum
  blob_datum : Bytes → Datum

-- An sqlite3_value, as its accessors show it: SQLITE_INTEGER 1, SQLITE_FLOAT 2, SQLITE_TEXT 3,
-- SQLITE_BLOB 4, SQLITE_NULL 5.
pub record SqlValue : Type 0 where
  pub type_code : ℕ
  pub int64 : ℤ
  pub double : ℕ
  pub text : Bytes
  pub blob : Bytes

pub data FileOp : Type 0 where
  file_pointer journal_pointer : FileOp

-- The calls that change the library's state, and the method calls of Ruby objects. A handle is
-- `none` where the code may pass NULL and the library allows it.
pub data Call : Type 0 where
  open_v2 : Bytes → ℤ → Option Bytes → Call
  open16 : Bytes → Call
  close_v2 : Option Ptr → Call
  db_release_memory : Ptr → Call
  file_control : Ptr → Option Bytes → FileOp → Call
  x_close : Ptr → Call
  db_config : Ptr → ℕ → ℕ → Call
  trace_hook : Ptr → Bool → Call
  busy_hook : Ptr → Bool → Call
  progress_handler : Ptr → ℤ → Call
  authorizer_hook : Ptr → Bool → Call
  busy_timeout : Ptr → ℤ → Call
  extended_result_codes : Ptr → Bool → Call
  create_function : Ptr → Bytes → ℤ → ℤ → Value → Call
  create_aggregate : Ptr → Bytes → ℤ → Ptr → Call
  create_collation : Ptr → Bytes → Value → Call
  load_extension : Ptr → Bytes → Call
  enable_load_extension : Ptr → ℤ → Call
  interrupt_call : Ptr → Call
  exec_sql : Ptr → Bytes → Call
  prepare_v2 : Option Ptr → Bytes → Call
  finalize : Ptr → Call
  step_call : Ptr → Call
  reset_call : Ptr → Call
  clear_bindings : Ptr → Call
  bind_call : Ptr → ℤ → Datum → Call
  backup_init : Ptr → Bytes → Ptr → Bytes → Call
  backup_step : Ptr → ℤ → Call
  backup_finish : Ptr → Call
  result_call : Ptr → Datum → Call
  result_error : Ptr → Call
  status_call : ℤ → Bool → Call
  ruby_call : Value → Bytes → List Value → Call

abbrev pub Log : Type 0
Log = List Call

-- struct timespec
pub record Timespec : Type 0 where
  pub sec : ℕ
  pub nsec : ℕ

-- A callback of the extension that SQLite calls, with its arguments: xFunc, xStep and xFinal with the
-- pointer of sqlite3_user_data and the context, xCompare, and the hooks of a connection with the
-- struct's address. The progress handler comes with the time that it reads.
pub data Callback : Type 0 where
  function_called : Value → Ptr → List SqlValue → Callback
  aggregate_stepped : Ptr → Ptr → List SqlValue → Callback
  aggregate_finished : Ptr → Ptr → Callback
  compared : Value → Bytes → Bytes → Callback
  traced : Ptr → Bytes → Callback
  busy_called : Ptr → ℕ → Callback
  progressed : Ptr → Timespec → Callback
  authorized : Ptr → ℤ → Option Bytes → Option Bytes → Option Bytes → Option Bytes → Callback

-- `callbacks` are those that the newest call of the log makes before it returns, and `handle` is the
-- handle that it stores or returns. `status` and the two texts are what that call returned or
-- stored; where it made callbacks, the log has what they did on top of it.
pub record Sqlite : Type 0 where
  pub callbacks : Log → List Callback
  pub status : Log → ℕ
  pub handle : Log → Option Ptr
  pub err_msg_out : Log → Bytes
  pub tail_out : Log → Bytes
  pub exec_rows : Log → List (List (Bytes × Option Bytes))
  pub errmsg : Log → Option Ptr → Bytes
  pub errcode : Log → Option Ptr → ℕ
  pub error_offset : Log → Option Ptr → ℤ
  pub changes : Log → Ptr → ℤ
  pub total_changes : Log → Ptr → ℤ
  pub last_insert_rowid : Log → Ptr → ℤ
  pub complete : Bytes → Bool
  pub get_autocommit : Log → Ptr → Bool
  pub db_filename : Log → Ptr → Bytes → Option Bytes
  pub db_name : Log → Ptr → ℕ → Option Bytes
  pub has_methods : Log → Ptr → Bool
  pub db_handle : Log → Ptr → Option Ptr
  pub column_count : Log → Ptr → ℕ
  pub column_type : Log → Ptr → ℕ → ℕ
  pub column_int64 : Log → Ptr → ℕ → ℤ
  pub column_double : Log → Ptr → ℕ → ℕ
  pub column_text : Log → Ptr → ℕ → Bytes
  pub column_blob : Log → Ptr → ℕ → Bytes
  pub column_name : Log → Ptr → ℤ → Option Bytes
  pub column_decltype : Log → Ptr → ℤ → Option Bytes
  pub column_database_name : Log → Ptr → ℤ → Bytes
  pub bind_parameter_count : Log → Ptr → ℕ
  pub bind_parameter_index : Log → Ptr → Bytes → ℤ
  pub bind_parameter_name : Log → Ptr → ℕ → Option Bytes
  pub stmt_status : Log → Ptr → ℕ → ℕ
  pub sql : Log → Ptr → Bytes
  pub expanded_sql : Log → Ptr → Bytes
  pub aggregate_memory : Log → Ptr → Bool
  pub backup_remaining : Log → Ptr → ℤ
  pub backup_pagecount : Log → Ptr → ℤ
  pub libversion_number : ℕ
  pub threadsafe : ℕ
  pub status_current : Log → ℤ
  pub status_highwater : Log → ℤ

-- The Ruby runtime: NUM2INT, NUM2DBL of a Bignum, String#encode, codepoints, the FrozenError of a
-- String, the default internal encoding, String#downcase, whether a class is a StandardError and
-- whether it is StopIteration or a class below it, and method calls.
pub record Ruby : Type 0 where
  pub num2int : Value → Answer ℤ
  pub num2dbl : ℤ → ℕ
  pub encode_utf8 : Str → Answer Bytes
  pub codepoints : Str → Answer (List ℕ)
  pub frozen_error : Str → Exception
  pub internal_encoding : Option Encoding
  pub export_to_enc : Encoding → Str → Str
  pub downcase : Str → Str
  pub is_standard : ℕ → Bool
  pub is_stop_iteration : ℕ → Bool
  pub proc_arity : Value → ℤ
  pub respond_to : Value → Bytes → Bool
  pub funcall : Log → Answer Value
