-- ===== src/Registration/Calls.antt =====
-- The calls of Ruby's C API by which ext/sqlite3 defines its classes, methods and constants.
use sqlite3_ruby.Base.{Bool, String, ℤ, pos, negsuc}

-- The variables that hold a class or a module.
pub data Holder : Type 0 where
  m_sqlite3 m_sqlite3_constants m_sqlite3_open c_sqlite3_blob c_sqlite3_database : Holder
  c_sqlite3_statement c_sqlite3_backup c_aggregator_wrapper c_aggregator_instance : Holder

-- The superclass of a class: rb_cObject or rb_cString.
pub data Superclass : Type 0 where
  rb_c_object rb_c_string : Superclass

-- The static functions of database.c that are registered.
pub data DatabaseFunction : Type 0 where
  allocate rb_sqlite3_open_v2 rb_sqlite3_open16 collation sqlite3_rb_close : DatabaseFunction
  sqlite3_rb_discard closed_p total_changes trace last_insert_row_id : DatabaseFunction
  define_function define_function_with_flags rb_sqlite3_define_aggregator2 : DatabaseFunction
  rb_sqlite3_disable_quirk_mode interrupt errmsg errcode_ complete_p changes : DatabaseFunction
  set_authorizer busy_handler set_busy_timeout set_statement_timeout : DatabaseFunction
  set_extended_result_codes transaction_active_p exec_batch db_filename : DatabaseFunction
  load_extension_internal enable_load_extension : DatabaseFunction

pub data StatementFunction : Type 0 where
  allocate sqlite3_rb_close closed_p bind_param reset_bang clear_bindings_bang : StatementFunction
  step done_p column_count column_name column_decltype bind_parameter_count : StatementFunction
  named_params get_sql get_expanded_sql database_name memused prepare : StatementFunction
  stats_as_hash stat_for : StatementFunction

pub data BackupFunction : Type 0 where
  allocate initialize step finish remaining pagecount : BackupFunction

pub data LibraryFunction : Type 0 where
  using_sqlcipher libversion threadsafe_p rb_sqlite3_status : LibraryFunction

pub data Function : Type 0 where
  of_database : DatabaseFunction → Function
  of_statement : StatementFunction → Function
  of_backup : BackupFunction → Function
  of_library : LibraryFunction → Function

-- How the C definition takes its arguments after `self`: a number of VALUEs, or argc and argv, which
-- Ruby knows as -1.
abbrev pub database_parameters : DatabaseFunction → ℤ
database_parameters DatabaseFunction.rb_sqlite3_open_v2 = pos 3
database_parameters DatabaseFunction.rb_sqlite3_open16 = pos 1
database_parameters DatabaseFunction.collation = pos 2
database_parameters DatabaseFunction.trace = negsuc 0
database_parameters DatabaseFunction.define_function = pos 1
database_parameters DatabaseFunction.define_function_with_flags = pos 2
database_parameters DatabaseFunction.rb_sqlite3_define_aggregator2 = pos 2
database_parameters DatabaseFunction.complete_p = pos 1
database_parameters DatabaseFunction.set_authorizer = pos 1
database_parameters DatabaseFunction.busy_handler = negsuc 0
database_parameters DatabaseFunction.set_busy_timeout = pos 1
database_parameters DatabaseFunction.set_statement_timeout = pos 1
database_parameters DatabaseFunction.set_extended_result_codes = pos 1
database_parameters DatabaseFunction.exec_batch = pos 2
database_parameters DatabaseFunction.db_filename = pos 1
database_parameters DatabaseFunction.load_extension_internal = pos 1
database_parameters DatabaseFunction.enable_load_extension = pos 1
database_parameters _ = pos 0

abbrev pub statement_parameters : StatementFunction → ℤ
statement_parameters StatementFunction.bind_param = pos 2
statement_parameters StatementFunction.column_name = pos 1
statement_parameters StatementFunction.column_decltype = pos 1
statement_parameters StatementFunction.database_name = pos 1
statement_parameters StatementFunction.prepare = pos 2
statement_parameters StatementFunction.stat_for = pos 1
statement_parameters _ = pos 0

abbrev pub backup_parameters : BackupFunction → ℤ
backup_parameters BackupFunction.initialize = pos 4
backup_parameters BackupFunction.step = pos 1
backup_parameters _ = pos 0

abbrev pub library_parameters : LibraryFunction → ℤ
library_parameters LibraryFunction.rb_sqlite3_status = negsuc 0
library_parameters _ = pos 0

abbrev pub parameters : Function → ℤ
parameters (of_database f) = database_parameters f
parameters (of_statement f) = statement_parameters f
parameters (of_backup f) = backup_parameters f
parameters (of_library f) = library_parameters f

-- The value of a constant: of a macro of sqlite3.h as an Integer or as a String, of
-- sqlite3_libversion(), or a Boolean.
pub data Constant : Type 0 where
  int_macro : String → Constant
  string_macro : String → Constant
  loaded_version : Constant
  boolean : Bool → Constant

-- A call, its receiver first. Methods come with their name, function and arity.
pub data ApiCall : Type 0 where
  rb_define_module : Holder → String → ApiCall
  rb_define_class_under : Holder → Holder → String → Superclass → ApiCall
  rb_define_module_under : Holder → Holder → String → ApiCall
  rb_define_alloc_func : Holder → Function → ApiCall
  rb_define_method : Holder → String → Function → ℤ → ApiCall
  rb_define_private_method : Holder → String → Function → ℤ → ApiCall
  rb_define_singleton_method : Holder → String → Function → ℤ → ApiCall
  rb_define_const : Holder → String → Constant → ApiCall
  new_class : Holder → ApiCall
  rb_gc_register_mark_object : Holder → ApiCall
  sqlite3_initialize : ApiCall

-- What the build found, and the macros of sqlite3.h.
pub record Build : Type 0 where
  pub omit_progress_callback : Bool
  pub have_load_extension : Bool
  pub have_enable_load_extension : Bool
  pub have_column_database_name : Bool
  pub has_memused : Bool
  pub have_backup_init : Bool
  pub have_initialize : Bool
  pub has_open_autoproxy : Bool
  pub has_open_uri : Bool
  pub has_open_memory : Bool
  pub packaged_libraries : Bool
  pub precompiled_libraries : Bool
