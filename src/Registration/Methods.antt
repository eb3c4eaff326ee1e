-- ===== src/Registration/Methods.antt =====
-- ext/sqlite3/database.c, statement.c and backup.c: the init_ functions, and
-- rb_sqlite3_aggregator_init of aggregator.c.
use sqlite3_ruby.Base.{◌&&◌, List, [], ◌∷◌, ◌++◌, not, if◌then◌else◌, pos, negsuc}
use sqlite3_ruby.Registration.Calls.{
  m_sqlite3, c_sqlite3_database, c_sqlite3_statement, c_sqlite3_backup, c_aggregator_wrapper,
  c_aggregator_instance, rb_c_object, DatabaseFunction, StatementFunction, BackupFunction,
  of_database, of_statement, of_backup, ApiCall, rb_define_class_under, rb_define_alloc_func,
  rb_define_method, rb_define_private_method, new_class, rb_gc_register_mark_object, Build,
}

unfoldable pub rb_sqlite3_aggregator_init : List ApiCall
rb_sqlite3_aggregator_init =
    new_class c_aggregator_wrapper
    ∷ rb_gc_register_mark_object c_aggregator_wrapper
    ∷ new_class c_aggregator_instance
    ∷ rb_gc_register_mark_object c_aggregator_instance
    ∷ []

unfoldable pub init_sqlite3_database : Build → List ApiCall
init_sqlite3_database build =
    (rb_define_class_under c_sqlite3_database m_sqlite3 "Database" rb_c_object
      ∷ rb_define_alloc_func c_sqlite3_database (of_database DatabaseFunction.allocate)
      ∷ rb_define_private_method c_sqlite3_database "open_v2"
          (of_database DatabaseFunction.rb_sqlite3_open_v2) (pos 3)
      ∷ rb_define_private_method c_sqlite3_database "open16"
          (of_database DatabaseFunction.rb_sqlite3_open16) (pos 1)
      ∷ rb_define_method c_sqlite3_database "collation" (of_database DatabaseFunction.collation)
          (pos 2)
      ∷ rb_define_method c_sqlite3_database "close" (of_database DatabaseFunction.sqlite3_rb_close)
          (pos 0)
      ∷ rb_define_private_method c_sqlite3_database "discard"
          (of_database DatabaseFunction.sqlite3_rb_discard) (pos 0)
      ∷ rb_define_method c_sqlite3_database "closed?" (of_database DatabaseFunction.closed_p)
          (pos 0)
      ∷ rb_define_method c_sqlite3_database "total_changes"
          (of_database DatabaseFunction.total_changes) (pos 0)
      ∷ rb_define_method c_sqlite3_database "trace" (of_database DatabaseFunction.trace) (negsuc 0)
      ∷ rb_define_method c_sqlite3_database "last_insert_row_id"
          (of_database DatabaseFunction.last_insert_row_id) (pos 0)
      ∷ rb_define_method c_sqlite3_database "define_function"
          (of_database DatabaseFunction.define_function) (pos 1)
      ∷ rb_define_method c_sqlite3_database "define_function_with_flags"
          (of_database DatabaseFunction.define_function_with_flags) (pos 2)
      ∷ rb_define_private_method c_sqlite3_database "define_aggregator2"
          (of_database DatabaseFunction.rb_sqlite3_define_aggregator2) (pos 2)
      ∷ rb_define_private_method c_sqlite3_database "disable_quirk_mode"
          (of_database DatabaseFunction.rb_sqlite3_disable_quirk_mode) (pos 0)
      ∷ rb_define_method c_sqlite3_database "interrupt" (of_database DatabaseFunction.interrupt)
          (pos 0)
      ∷ rb_define_method c_sqlite3_database "errmsg" (of_database DatabaseFunction.errmsg) (pos 0)
      ∷ rb_define_method c_sqlite3_database "errcode" (of_database DatabaseFunction.errcode_)
          (pos 0)
      ∷ rb_define_method c_sqlite3_database "complete?" (of_database DatabaseFunction.complete_p)
          (pos 1)
      ∷ rb_define_method c_sqlite3_database "changes" (of_database DatabaseFunction.changes) (pos 0)
      ∷ rb_define_method c_sqlite3_database "authorizer="
          (of_database DatabaseFunction.set_authorizer) (pos 1)
      ∷ rb_define_method c_sqlite3_database "busy_handler"
          (of_database DatabaseFunction.busy_handler) (negsuc 0)
      ∷ rb_define_method c_sqlite3_database "busy_timeout="
          (of_database DatabaseFunction.set_busy_timeout) (pos 1)
      ∷ [])
    ++ (if not build.omit_progress_callback
        then rb_define_method c_sqlite3_database "statement_timeout="
            (of_database DatabaseFunction.set_statement_timeout) (pos 1)
          ∷ []
        else [])
    ++ (rb_define_method c_sqlite3_database "extended_result_codes="
          (of_database DatabaseFunction.set_extended_result_codes) (pos 1)
        ∷ rb_define_method c_sqlite3_database "transaction_active?"
            (of_database DatabaseFunction.transaction_active_p) (pos 0)
        ∷ rb_define_private_method c_sqlite3_database "exec_batch"
            (of_database DatabaseFunction.exec_batch) (pos 2)
        ∷ rb_define_private_method c_sqlite3_database "db_filename"
            (of_database DatabaseFunction.db_filename) (pos 1)
        ∷ [])
    ++ (if build.have_load_extension
        then rb_define_private_method c_sqlite3_database "load_extension_internal"
            (of_database DatabaseFunction.load_extension_internal) (pos 1)
          ∷ []
        else [])
    ++ (if build.have_load_extension && build.have_enable_load_extension
        then rb_define_method c_sqlite3_database "enable_load_extension"
            (of_database DatabaseFunction.enable_load_extension) (pos 1)
          ∷ []
        else [])
    ++ rb_sqlite3_aggregator_init

unfoldable pub init_sqlite3_statement : Build → List ApiCall
init_sqlite3_statement build =
    (rb_define_class_under c_sqlite3_statement m_sqlite3 "Statement" rb_c_object
      ∷ rb_define_alloc_func c_sqlite3_statement (of_statement StatementFunction.allocate)
      ∷ rb_define_method c_sqlite3_statement "close"
          (of_statement StatementFunction.sqlite3_rb_close) (pos 0)
      ∷ rb_define_method c_sqlite3_statement "closed?" (of_statement StatementFunction.closed_p)
          (pos 0)
      ∷ rb_define_method c_sqlite3_statement "bind_param"
          (of_statement StatementFunction.bind_param) (pos 2)
      ∷ rb_define_method c_sqlite3_statement "reset!" (of_statement StatementFunction.reset_bang)
          (pos 0)
      ∷ rb_define_method c_sqlite3_statement "clear_bindings!"
          (of_statement StatementFunction.clear_bindings_bang) (pos 0)
      ∷ rb_define_method c_sqlite3_statement "step" (of_statement StatementFunction.step) (pos 0)
      ∷ rb_define_method c_sqlite3_statement "done?" (of_statement StatementFunction.done_p) (pos 0)
      ∷ rb_define_method c_sqlite3_statement "column_count"
          (of_statement StatementFunction.column_count) (pos 0)
      ∷ rb_define_method c_sqlite3_statement "column_name"
          (of_statement StatementFunction.column_name) (pos 1)
      ∷ rb_define_method c_sqlite3_statement "column_decltype"
          (of_statement StatementFunction.column_decltype) (pos 1)
      ∷ rb_define_method c_sqlite3_statement "bind_parameter_count"
          (of_statement StatementFunction.bind_parameter_count) (pos 0)
      ∷ rb_define_method c_sqlite3_statement "named_params"
          (of_statement StatementFunction.named_params) (pos 0)
      ∷ rb_define_method c_sqlite3_statement "sql" (of_statement StatementFunction.get_sql) (pos 0)
      ∷ rb_define_method c_sqlite3_statement "expanded_sql"
          (of_statement StatementFunction.get_expanded_sql) (pos 0)
      ∷ [])
    ++ (if build.have_column_database_name
        then rb_define_method c_sqlite3_statement "database_name"
            (of_statement StatementFunction.database_name) (pos 1)
          ∷ []
        else [])
    ++ (if build.has_memused
        then rb_define_method c_sqlite3_statement "memused" (of_statement StatementFunction.memused)
            (pos 0)
          ∷ []
        else [])
    ++ (rb_define_private_method c_sqlite3_statement "prepare"
          (of_statement StatementFunction.prepare) (pos 2)
        ∷ rb_define_private_method c_sqlite3_statement "stats_as_hash"
            (of_statement StatementFunction.stats_as_hash) (pos 0)
        ∷ rb_define_private_method c_sqlite3_statement "stat_for"
            (of_statement StatementFunction.stat_for) (pos 1)
        ∷ [])

unfoldable pub init_sqlite3_backup : List ApiCall
init_sqlite3_backup =
    rb_define_class_under c_sqlite3_backup m_sqlite3 "Backup" rb_c_object
    ∷ rb_define_alloc_func c_sqlite3_backup (of_backup BackupFunction.allocate)
    ∷ rb_define_method c_sqlite3_backup "initialize" (of_backup BackupFunction.initialize) (pos 4)
    ∷ rb_define_method c_sqlite3_backup "step" (of_backup BackupFunction.step) (pos 1)
    ∷ rb_define_method c_sqlite3_backup "finish" (of_backup BackupFunction.finish) (pos 0)
    ∷ rb_define_method c_sqlite3_backup "remaining" (of_backup BackupFunction.remaining) (pos 0)
    ∷ rb_define_method c_sqlite3_backup "pagecount" (of_backup BackupFunction.pagecount) (pos 0)
    ∷ []
