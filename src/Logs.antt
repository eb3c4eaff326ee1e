-- ===== src/Logs.antt =====
-- What a log of calls says of the handles of statements, of connections and of backups, of the texts
-- that were prepared, and of the hooks of a connection.
use sqlite3_ruby.Base.{
  ℕ, ◌+◌, Bool, true, false, ◌&&◌, ◌||◌, Option, none, some, [], ◌∷◌, ◌==◌, if◌then◌else◌,
}
use sqlite3_ruby.Values.{Ptr, Bytes, bytes_eq}
use sqlite3_ruby.Env.{
  Sqlite, Log, finalize, prepare_v2, step_call, reset_call, clear_bindings, bind_call, open_v2,
  open16, close_v2, db_release_memory, file_control, db_config, trace_hook, busy_hook,
  progress_handler, authorizer_hook, busy_timeout, extended_result_codes, create_function,
  create_aggregate, create_collation, load_extension, enable_load_extension, interrupt_call,
  exec_sql, backup_init, backup_step, backup_finish,
}

-- How often the handle `st` was finalized.
abbrev pub finalizes : Ptr → Log → ℕ
finalizes st [] = 0
finalizes st (finalize p ∷ log) = (if p == st then 1 else 0) + finalizes st log
finalizes st (_ ∷ log) = finalizes st log

-- Whether a prepare of the log gave the handle `st`, and no later call finalized it.
abbrev pub gives : Option Ptr → Ptr → Bool
gives none st = false
gives (some p) st = p == st

abbrev pub live : ⦃lib : Sqlite⦄ → Ptr → Log → Bool
live st [] = false
live st (finalize p ∷ log) = if p == st then false else live st log
live ⦃lib⦄ st (prepare_v2 db sql ∷ log) =
    gives (lib.handle (prepare_v2 db sql ∷ log)) st || live st log
live st (_ ∷ log) = live st log

-- Every sqlite3_finalize, sqlite3_step, sqlite3_reset, sqlite3_clear_bindings and sqlite3_bind_ call
-- was made while its handle was live. The functions that only read are not calls of a log.
abbrev pub is_safe : ⦃lib : Sqlite⦄ → Log → Bool
is_safe [] = true
is_safe (finalize st ∷ log) = live st log && is_safe log
is_safe (step_call st ∷ log) = live st log && is_safe log
is_safe (reset_call st ∷ log) = live st log && is_safe log
is_safe (clear_bindings st ∷ log) = live st log && is_safe log
is_safe (bind_call st index datum ∷ log) = live st log && is_safe log
is_safe (_ ∷ log) = is_safe log

-- Whether an open of the log gave the connection `c`, and no later call closed it.
abbrev pub is_open : ⦃lib : Sqlite⦄ → Ptr → Log → Bool
is_open c [] = false
is_open c (close_v2 p ∷ log) = if gives p c then false else is_open c log
is_open ⦃lib⦄ c (open_v2 name flags vfs ∷ log) =
    gives (lib.handle (open_v2 name flags vfs ∷ log)) c || is_open c log
is_open ⦃lib⦄ c (open16 name ∷ log) = gives (lib.handle (open16 name ∷ log)) c || is_open c log
is_open c (_ ∷ log) = is_open c log

-- The same of an argument that may be NULL.
abbrev pub open_slot : ⦃lib : Sqlite⦄ → Option Ptr → Log → Bool
open_slot none log = true
open_slot (some c) log = is_open c log

-- Every call of these functions was made while its connections were open. The functions that only
-- read (sqlite3_errmsg, sqlite3_changes, sqlite3_db_name and the like) are not calls of a log.
abbrev pub is_proper : ⦃lib : Sqlite⦄ → Log → Bool
is_proper [] = true
is_proper (close_v2 c ∷ log) = open_slot c log && is_proper log
is_proper (db_release_memory c ∷ log) = is_open c log && is_proper log
is_proper (file_control c name op ∷ log) = is_open c log && is_proper log
is_proper (db_config c op value ∷ log) = is_open c log && is_proper log
is_proper (trace_hook c on ∷ log) = is_open c log && is_proper log
is_proper (busy_hook c on ∷ log) = is_open c log && is_proper log
is_proper (progress_handler c n ∷ log) = is_open c log && is_proper log
is_proper (authorizer_hook c on ∷ log) = is_open c log && is_proper log
is_proper (busy_timeout c ms ∷ log) = is_open c log && is_proper log
is_proper (extended_result_codes c on ∷ log) = is_open c log && is_proper log
is_proper (create_function c name arity rep block ∷ log) = is_open c log && is_proper log
is_proper (create_aggregate c name arity aw ∷ log) = is_open c log && is_proper log
is_proper (create_collation c name v ∷ log) = is_open c log && is_proper log
is_proper (load_extension c file ∷ log) = is_open c log && is_proper log
is_proper (enable_load_extension c n ∷ log) = is_open c log && is_proper log
is_proper (interrupt_call c ∷ log) = is_open c log && is_proper log
is_proper (exec_sql c sql ∷ log) = is_open c log && is_proper log
is_proper (prepare_v2 c sql ∷ log) = open_slot c log && is_proper log
is_proper (backup_init dst to src from ∷ log) =
    is_open dst log && (is_open src log && is_proper log)
is_proper (_ ∷ log) = is_proper log

-- Whether a set-up of the log gave the backup's handle `h`, and no later call finished it.
abbrev pub backup_live : ⦃lib : Sqlite⦄ → Ptr → Log → Bool
backup_live h [] = false
backup_live h (backup_finish p ∷ log) = if p == h then false else backup_live h log
backup_live ⦃lib⦄ h (backup_init dst to src from ∷ log) =
    gives (lib.handle (backup_init dst to src from ∷ log)) h || backup_live h log
backup_live h (_ ∷ log) = backup_live h log

-- Every sqlite3_backup_step and sqlite3_backup_finish was made while its handle was live.
abbrev pub is_backup_safe : ⦃lib : Sqlite⦄ → Log → Bool
is_backup_safe [] = true
is_backup_safe (backup_step h n ∷ log) = backup_live h log && is_backup_safe log
is_backup_safe (backup_finish h ∷ log) = backup_live h log && is_backup_safe log
is_backup_safe (_ ∷ log) = is_backup_safe log

-- Whether the library calls the tracer, the busy handler or the authorizer of ext/sqlite3 for the
-- connection `c`: the newest call that set the hook decides, where it returned SQLITE_OK.
-- sqlite3_busy_timeout takes the place of a busy handler. (The documentation of these functions.)
abbrev pub trace_installed : Ptr → Log → Bool
trace_installed c [] = false
trace_installed c (trace_hook p on ∷ log) = if p == c then on else trace_installed c log
trace_installed c (_ ∷ log) = trace_installed c log

abbrev pub busy_installed : ⦃lib : Sqlite⦄ → Ptr → Log → Bool
busy_installed c [] = false
busy_installed ⦃lib⦄ c (busy_hook p on ∷ log) =
    let rest = busy_installed c log in
    if (p == c) && (lib.status (busy_hook p on ∷ log) == 0) then on else rest
busy_installed ⦃lib⦄ c (busy_timeout p ms ∷ log) =
    let rest = busy_installed c log in
    if (p == c) && (lib.status (busy_timeout p ms ∷ log) == 0) then false else rest
busy_installed c (_ ∷ log) = busy_installed c log

abbrev pub auth_installed : ⦃lib : Sqlite⦄ → Ptr → Log → Bool
auth_installed c [] = false
auth_installed ⦃lib⦄ c (authorizer_hook p on ∷ log) =
    let rest = auth_installed c log in
    if (p == c) && (lib.status (authorizer_hook p on ∷ log) == 0) then on else rest
auth_installed c (_ ∷ log) = auth_installed c log

-- How often the text was given to sqlite3_prepare_v2.
abbrev pub prepares : Bytes → Log → ℕ
prepares sql [] = 0
prepares sql (prepare_v2 c text ∷ log) = (if bytes_eq text sql then 1 else 0) + prepares sql log
prepares sql (_ ∷ log) = prepares sql log
