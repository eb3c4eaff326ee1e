-- ===== src/Registration/Library.antt =====
-- ext/sqlite3/sqlite3.c: init_sqlite3_constants and Init_sqlite3_native.
use sqlite3_ruby.Base.{List, [], ◌∷◌, ◌++◌, if◌then◌else◌, pos, negsuc}
use sqlite3_ruby.Registration.Calls.{
  m_sqlite3, m_sqlite3_constants, m_sqlite3_open, c_sqlite3_blob, rb_c_string, LibraryFunction,
  of_library, ApiCall, rb_define_module, rb_define_class_under, rb_define_module_under,
  rb_define_singleton_method, rb_define_const, sqlite3_initialize, Build, int_macro, string_macro,
  loaded_version, boolean,
}
use sqlite3_ruby.Registration.Methods.{
  init_sqlite3_database, init_sqlite3_statement, init_sqlite3_backup,
}

unfoldable pub init_sqlite3_constants : Build → List ApiCall
init_sqlite3_constants build =
    (rb_define_module_under m_sqlite3_constants m_sqlite3 "Constants"
      ∷ rb_define_module_under m_sqlite3_open m_sqlite3_constants "Open"
      ∷ rb_define_const m_sqlite3_open "READONLY" (int_macro "SQLITE_OPEN_READONLY")
      ∷ rb_define_const m_sqlite3_open "READWRITE" (int_macro "SQLITE_OPEN_READWRITE")
      ∷ rb_define_const m_sqlite3_open "CREATE" (int_macro "SQLITE_OPEN_CREATE")
      ∷ rb_define_const m_sqlite3_open "DELETEONCLOSE" (int_macro "SQLITE_OPEN_DELETEONCLOSE")
      ∷ rb_define_const m_sqlite3_open "EXCLUSIVE" (int_macro "SQLITE_OPEN_EXCLUSIVE")
      ∷ rb_define_const m_sqlite3_open "MAIN_DB" (int_macro "SQLITE_OPEN_MAIN_DB")
      ∷ rb_define_const m_sqlite3_open "TEMP_DB" (int_macro "SQLITE_OPEN_TEMP_DB")
      ∷ rb_define_const m_sqlite3_open "TRANSIENT_DB" (int_macro "SQLITE_OPEN_TRANSIENT_DB")
      ∷ rb_define_const m_sqlite3_open "MAIN_JOURNAL" (int_macro "SQLITE_OPEN_MAIN_JOURNAL")
      ∷ rb_define_const m_sqlite3_open "TEMP_JOURNAL" (int_macro "SQLITE_OPEN_TEMP_JOURNAL")
      ∷ rb_define_const m_sqlite3_open "SUBJOURNAL" (int_macro "SQLITE_OPEN_SUBJOURNAL")
      ∷ rb_define_const m_sqlite3_open "MASTER_JOURNAL" (int_macro "SQLITE_OPEN_MASTER_JOURNAL")
      ∷ rb_define_const m_sqlite3_open "SUPER_JOURNAL" (int_macro "SQLITE_OPEN_MASTER_JOURNAL")
      ∷ rb_define_const m_sqlite3_open "NOMUTEX" (int_macro "SQLITE_OPEN_NOMUTEX")
      ∷ rb_define_const m_sqlite3_open "FULLMUTEX" (int_macro "SQLITE_OPEN_FULLMUTEX")
      ∷ [])
    ++ (if build.has_open_autoproxy
        then rb_define_const m_sqlite3_open "AUTOPROXY" (int_macro "SQLITE_OPEN_AUTOPROXY")
          ∷ rb_define_const m_sqlite3_open "SHAREDCACHE" (int_macro "SQLITE_OPEN_SHAREDCACHE")
          ∷ rb_define_const m_sqlite3_open "PRIVATECACHE" (int_macro "SQLITE_OPEN_PRIVATECACHE")
          ∷ rb_define_const m_sqlite3_open "WAL" (int_macro "SQLITE_OPEN_WAL")
          ∷ []
        else [])
    ++ (if build.has_open_uri
        then rb_define_const m_sqlite3_open "URI" (int_macro "SQLITE_OPEN_URI") ∷ []
        else [])
    ++ (if build.has_open_memory
        then rb_define_const m_sqlite3_open "MEMORY" (int_macro "SQLITE_OPEN_MEMORY") ∷ []
        else [])

unfoldable pub library_methods : List ApiCall
library_methods =
    rb_define_singleton_method m_sqlite3 "sqlcipher?" (of_library LibraryFunction.using_sqlcipher)
      (pos 0)
    ∷ rb_define_singleton_method m_sqlite3 "libversion" (of_library LibraryFunction.libversion)
        (pos 0)
    ∷ rb_define_singleton_method m_sqlite3 "threadsafe" (of_library LibraryFunction.threadsafe_p)
        (pos 0)
    ∷ rb_define_singleton_method m_sqlite3 "status" (of_library LibraryFunction.rb_sqlite3_status)
        (negsuc 0)
    ∷ []

unfoldable pub version_constants : Build → List ApiCall
version_constants build =
    rb_define_const m_sqlite3 "SQLITE_VERSION" (string_macro "SQLITE_VERSION")
    ∷ rb_define_const m_sqlite3 "SQLITE_VERSION_NUMBER" (int_macro "SQLITE_VERSION_NUMBER")
    ∷ rb_define_const m_sqlite3 "SQLITE_LOADED_VERSION" loaded_version
    ∷ rb_define_const m_sqlite3 "SQLITE_PACKAGED_LIBRARIES" (boolean build.packaged_libraries)
    ∷ rb_define_const m_sqlite3 "SQLITE_PRECOMPILED_LIBRARIES" (boolean build.precompiled_libraries)
    ∷ []

-- The function that Ruby calls when it loads the extension.
unfoldable pub init_sqlite3_native : Build → List ApiCall
init_sqlite3_native build =
    (rb_define_module m_sqlite3 "SQLite3"
      ∷ rb_define_class_under c_sqlite3_blob m_sqlite3 "Blob" rb_c_string
      ∷ [])
    ++ (if build.have_initialize then sqlite3_initialize ∷ [] else [])
    ++ init_sqlite3_constants build
    ++ init_sqlite3_database build
    ++ init_sqlite3_statement build
    ++ (if build.have_backup_init then init_sqlite3_backup else [])
    ++ library_methods
    ++ version_constants build
