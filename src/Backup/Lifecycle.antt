-- ===== src/Backup/Lifecycle.antt =====
-- Proofs about the life of a backup (ext/sqlite3/backup.c).
use sqlite3_ruby.Base.{
  ◌≡◌, refl, false, none, some, ◌∷◌, arith, ◌&&◌, if◌then◌else◌, is_some, ==_refl,
}
use sqlite3_ruby.Values.{
  Ptr, Bytes, Value, Exception, plain, lit, sqlite3_exception, arg_error, qnil,
}
use sqlite3_ruby.Env.{Sqlite, Ruby, backup_finish, backup_init}
use sqlite3_ruby.Machine.{World, ok, raise, final}
use sqlite3_ruby.Backup.Methods.{initialize, step, finish, remaining, pagecount, keep_handle}
use sqlite3_ruby.Errors.Classes.{status2klass}
use sqlite3_ruby.Errors.Codes.{class_and_code, with_code}
use sqlite3_ruby.Errors.Raise.{rb_sqlite3_raise}

abbrev pub closed_backup : Exception
closed_backup = plain sqlite3_exception (lit "cannot use a closed backup")

-- Every method of the backup raises at once, with no call to the library.
pub record IsClosed ⦃lib : Sqlite⦄ ⦃rb : Ruby⦄ (self : Ptr) (w : World) : Type 0 where
  pub step_refuses : (nPage : Value) → step self nPage w ≡ raise closed_backup w
  pub finish_refuses : finish self w ≡ raise closed_backup w
  pub remaining_refuses : remaining self w ≡ raise closed_backup w
  pub pagecount_refuses : pagecount self w ≡ raise closed_backup w

module _ ⦃lib : Sqlite⦄ ⦃rb : Ruby⦄ (self : Ptr) where
  IsClosed-of_none : (w : World) → (w.backups self).p ≡ none → IsClosed self w
  unfolding step finish remaining pagecount
  IsClosed-of_none w e = record {
    step_refuses = λ nPage. rw e;
    finish_refuses = rw e;
    remaining_refuses = rw e;
    pagecount_refuses = rw e;
  }

  -- finish of an open backup returns nil and calls sqlite3_backup_finish once; after that every method
  -- of the backup, a second finish among them, raises SQLite3::Exception and makes no call.
  pub finish_once :
      (w : World) (p : Ptr)
      → (w.backups self).p ≡ some p
      → let v = final (finish self w) in
        (finish self w ≡ ok qnil v) × (v.log ≡ backup_finish p ∷ w.log) × IsClosed self v
  unfolding finish
  finish_once w p e = rw e (refl, refl, IsClosed-of_none _ (rw (==_refl self)))

  -- A backup that is set up between two databases of which one is closed raises an ArgumentError, about
  -- the source first, and makes no call to the library.
  pub initialize_closed :
      (w : World) (dst src : Ptr) (dstname srcname : Bytes)
      → (is_some (w.databases dst).db && is_some (w.databases src).db) ≡ false
      → initialize self dst dstname src srcname w
        ≡ raise
            (plain arg_error (
              if is_some (w.databases src).db
              then lit "cannot backup to a closed database"
              else lit "cannot backup from a closed database"))
            w
  unfolding initialize
  initialize_closed w dst src dstname srcname h = ground arith

  -- A backup that is set up between two open databases makes one call of sqlite3_backup_init. Where
  -- the library gives a handle it returns and keeps the handle; where it gives NULL it raises the
  -- exception of the destination's result code, if that is one of an error, and the backup is as it
  -- was.
  pub initialize_outcome :
      (w : World) (dst src : Ptr) (dstname srcname : Bytes) (ddb sdb : Ptr)
      → (w.databases dst).db ≡ some ddb
      → (w.databases src).db ≡ some sdb
      → let log = backup_init ddb dstname sdb srcname ∷ w.log in
        let r = initialize self dst dstname src srcname w in
        let code = lib.errcode log (some ddb) in
        ((final r).log ≡ log)
        × (class_and_code r
            ≡ (if is_some (lib.handle log) then none else with_code code (status2klass code)))
        × (((final r).backups self).p
            ≡ (if is_some (lib.handle log) then lib.handle log else (w.backups self).p))
  unfolding initialize keep_handle rb_sqlite3_raise
  initialize_outcome w dst src dstname srcname ddb sdb to from = rw (to, from) (ground arith)
