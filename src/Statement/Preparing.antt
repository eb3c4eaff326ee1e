-- ===== src/Statement/Preparing.antt =====
-- Proofs about prepare (ext/sqlite3/statement.c).
use sqlite3_ruby.Base.{ℕ, ◌≡◌, none, some, ◌∷◌, arith, ◌==◌, if◌then◌else◌}
use sqlite3_ruby.Values.{Ptr, Bytes}
use sqlite3_ruby.Env.{Sqlite, Ruby, prepare_v2}
use sqlite3_ruby.Machine.{World, ok, final, update}
use sqlite3_ruby.Callbacks.{enter}
use sqlite3_ruby.Errors.Classes.{status2klass, IsResultCode}
use sqlite3_ruby.Errors.Raise.{rb_sqlite3_raise_with_sql}
use sqlite3_ruby.Timespec.{timespecclear}
use sqlite3_ruby.Database.Opening.{is_ok}
use sqlite3_ruby.Statement.Prepare.{prepare, prepare_result}

-- The state in which sqlite3_prepare_v2 is called: the statement belongs to the database, and its
-- handle, the output of the call, is NULL.
abbrev pub with_db : Ptr → Ptr → World → World
with_db self db w = record w {
  statements = update w.statements self (record (w.statements self) { db = some db; st = none });
}

module _ ⦃lib : Sqlite⦄ ⦃rb : Ruby⦄ (self db : Ptr) (sql : Bytes) (w : World) where
  -- When sqlite3_prepare_v2 and its callbacks return to prepare, with any result code: with SQLITE_OK
  -- it returns and clears the deadline of the connection's statement timeout; with an error it raises,
  -- and the deadline stays. In both cases the statement then belongs to the database and has the handle
  -- that the library stored, and no other call was made.
  pub prepare_outcome :
      (status : ℕ) (g : World)
      → enter (prepare_v2 (w.databases db).db sql) (with_db self db w) ≡ ok status g
      → IsResultCode status
      → let r = prepare self db sql w in
        let s = (final r).statements self in
        (is_ok r ≡ (status == 0))
        × (s.db ≡ some db)
        × (s.st ≡ lib.handle (prepare_v2 (w.databases db).db sql ∷ w.log))
        × ((final r).log ≡ g.log)
        × (((final r).databases db).stmt_deadline
            ≡ (if status == 0 then timespecclear else (g.databases db).stmt_deadline))
  unfolding prepare prepare_result rb_sqlite3_raise_with_sql status2klass
  prepare_outcome status g e h = rw e (ground arith)
