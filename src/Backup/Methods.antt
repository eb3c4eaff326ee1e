-- ===== src/Backup/Methods.antt =====
-- ext/sqlite3/backup.c: the methods of SQLite3::Backup (HAVE_SQLITE3_BACKUP_INIT).
use sqlite3_ruby.Base.{ℕ, not, Option, none, some, is_some}
use sqlite3_ruby.Values.{Ptr, Bytes, Value, qnil, ll2num, sqlite3_exception, arg_error}
use sqlite3_ruby.Env.{Sqlite, Ruby, backup_init, backup_step, backup_finish}
use sqlite3_ruby.Machine.{
  M, pure, ◌>>=◌, ◌>>◌, when, lift, deref, rb_raise, database, backup, set_backup, log_now, invoke_,
}
use sqlite3_ruby.Callbacks.{enter}
use sqlite3_ruby.Errors.Raise.{rb_sqlite3_raise}

-- REQUIRE_OPEN_BACKUP, and the handle.
abbrev pub open_backup : Ptr → M Ptr
open_backup self = do
  ctx ← backup self
  when (not (is_some ctx.p)) (rb_raise sqlite3_exception "cannot use a closed backup")
  deref ctx.p

unfoldable pub allocate : Ptr → M Ptr
allocate self = do set_backup self (record { p = none }); pure self

unfoldable pub finish : Ptr → M Value
finish self = do
  p ← open_backup self
  invoke_ (backup_finish p)
  set_backup self (record { p = none })
  pure qnil

module _ ⦃lib : Sqlite⦄ where
  -- `if (pBackup) { ctx->p = pBackup; } else { CHECK(...); }`
  unfoldable pub keep_handle : Ptr → Ptr → Option Ptr → M (Unit {0})
  keep_handle self ddb (some pBackup) = set_backup self (record { p = some pBackup })
  keep_handle self ddb none = do
    log ← log_now
    rb_sqlite3_raise (some ddb) (lib.errcode log (some ddb))

  unfoldable pub initialize : Ptr → Ptr → Bytes → Ptr → Bytes → M Ptr
  initialize self dstdb dstname srcdb srcname = do
    ddb_ctx ← database dstdb
    sdb_ctx ← database srcdb
    when (not (is_some sdb_ctx.db)) (rb_raise arg_error "cannot backup from a closed database")
    when (not (is_some ddb_ctx.db)) (rb_raise arg_error "cannot backup to a closed database")
    ddb ← deref ddb_ctx.db
    sdb ← deref sdb_ctx.db
    invoke_ (backup_init ddb dstname sdb srcname)
    log ← log_now
    keep_handle self ddb (lib.handle log)
    pure self

  unfoldable pub step : ⦃rb : Ruby⦄ → Ptr → Value → M ℕ
  step ⦃rb⦄ self nPage = do
    p ← open_backup self
    n ← lift (rb.num2int nPage)
    enter (backup_step p n)

  unfoldable pub remaining : Ptr → M Value
  remaining self = do
    p ← open_backup self
    log ← log_now
    pure (ll2num (lib.backup_remaining log p))

  unfoldable pub pagecount : Ptr → M Value
  pagecount self = do
    p ← open_backup self
    log ← log_now
    pure (ll2num (lib.backup_pagecount log p))
