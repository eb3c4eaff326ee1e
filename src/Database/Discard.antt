-- ===== src/Database/Discard.antt =====
-- ext/sqlite3/database.c: discard_db, close_or_discard_db and the methods that end a connection
-- (adr/2024-09-fork-safety.md). SQLite offers sqlite3_db_name (HAVE_SQLITE3_DB_NAME).
use sqlite3_ruby.Base.{
  ℕ, zero, suc, ◌+◌, ◌||◌, Option, none, some, ◌==◌, if◌then◌else◌, is_some, pos, [],
}
use sqlite3_ruby.Values.{Ptr, Bytes, Value, qfalse, qtrue}
use sqlite3_ruby.Env.{
  Sqlite, db_release_memory, file_control, x_close, close_v2, FileOp, file_pointer, journal_pointer,
}
use sqlite3_ruby.Machine.{
  Database, M, ok, pure, out_of_fuel, ◌>>=◌, ◌>>◌, database, set_database, deref, log_now, getpid,
  invoke, invoke_,
}
use sqlite3_ruby.Timespec.{timespecclear}
use sqlite3_ruby.Database.Flags.{is_readonly, set_discarded}

-- An SQLite connection has at most 127 databases: main, temp and 125 attached ones.
abbrev pub db_fuel : ℕ
db_fuel = 128

-- TypedData_Make_Struct zeroes the struct, and 0 is Qfalse.
abbrev pub new_struct : ℕ → Database
new_struct pid = record {
  db = none;
  busy_handler = qfalse;
  functions = [];
  collations = [];
  aggregators = [];
  trace_handler = qfalse;
  authorizer = qfalse;
  stmt_timeout = pos 0;
  stmt_deadline = timespecclear;
  owner = pid;
  flags = 0;
}

unfoldable pub allocate : Ptr → M Ptr
allocate self = do pid ← getpid; set_database self (new_struct pid); pure self

module _ ⦃lib : Sqlite⦄ where
  -- `if (status == 0 && sfile->pMethods != NULL) { sfile->pMethods->xClose(sfile); }`
  unfoldable pub close_file : Ptr → Option Bytes → FileOp → M (Unit {0})
  close_file db name op = do
    status ← invoke (file_control db name op)
    log ← log_now
    let sfile = lib.handle log
    if status == 0
        then (do f ← deref sfile; if lib.has_methods log f then invoke_ (x_close f) else pure tt)
        else pure tt

  -- The `while` over sqlite3_db_name(ctx->db, j_db).
  unfoldable pub close_files : ℕ → Ptr → ℕ → M (Unit {0})
  close_files zero db j_db w = out_of_fuel w
  close_files (suc fuel) db j_db w = elim (lib.db_name w.log db j_db) [
    | none ↦ ok tt w
    | some name ↦ (close_file db (some name) file_pointer >> close_files fuel db (j_db + 1)) w
  ]

  unfoldable pub discard_db : Ptr → M (Unit {0})
  discard_db self = do
    ctx ← database self
    db ← deref ctx.db
    invoke_ (db_release_memory db)
    close_files db_fuel db 0
    close_file db none journal_pointer
    set_database self (set_discarded (record ctx { db = none }))

  unfoldable pub close_or_discard_db : Ptr → M (Unit {0})
  close_or_discard_db self = do
    ctx ← database self
    pid ← getpid
    if is_some ctx.db
        then (if is_readonly ctx || ctx.owner == pid
            then (do invoke_ (close_v2 ctx.db); set_database self (record ctx { db = none }))
            else discard_db self)
        else pure tt

  -- xfree gives the struct back after this.
  unfoldable pub deallocate : Ptr → M (Unit {0})
  deallocate self = close_or_discard_db self

  unfoldable pub sqlite3_rb_close : Ptr → M Ptr
  sqlite3_rb_close self = do close_or_discard_db self; pure self

  unfoldable pub sqlite3_rb_discard : Ptr → M Ptr
  sqlite3_rb_discard self = do discard_db self; pure self

unfoldable pub closed_p : Ptr → M Value
closed_p self = do ctx ← database self; pure (if is_some ctx.db then qfalse else qtrue)
