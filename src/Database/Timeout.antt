-- ===== src/Database/Timeout.antt =====
-- ext/sqlite3/database.c: the statement timeout, rb_sqlite3_statement_timeout and
-- set_statement_timeout.
use sqlite3_ruby.Base.{Bool, true, false, List, [], ◌∷◌, ◌==◌, if◌then◌else◌, ℤ, pos, negsuc}
use sqlite3_ruby.Values.{Ptr, Value}
use sqlite3_ruby.Env.{Ruby, progress_handler, Timespec}
use sqlite3_ruby.Machine.{M, pure, ◌>>=◌, ◌>>◌, lift, deref, database, set_database, invoke_}
use sqlite3_ruby.Timespec.{timespecisset, timespecafter}

-- The progress handler; `now` is what clock_gettime gives. Whether SQLite is told to interrupt.
unfoldable pub rb_sqlite3_statement_timeout : Ptr → Timespec → M Bool
rb_sqlite3_statement_timeout self now = do
  ctx ← database self
  if timespecisset ctx.stmt_deadline
      then pure (timespecafter now ctx.stmt_deadline)
      else (do set_database self (record ctx { stmt_deadline = now }); pure false)

-- The calls of the handler during one statement, at the times of the list: SQLite stops at the
-- first that says so.
unfoldable pub progress : Ptr → List Timespec → M Bool
progress self [] = pure false
progress self (now ∷ later) = do
  stop ← rb_sqlite3_statement_timeout self now
  if stop then pure true else progress self later

abbrev is_zero : ℤ → Bool
is_zero (pos n) = n == 0
is_zero (negsuc n) = false

-- sqlite3_progress_handler does not allow NULL, and the method does not check for it.
unfoldable pub set_statement_timeout : ⦃rb : Ruby⦄ → Ptr → Value → M Ptr
set_statement_timeout ⦃rb⦄ self milliseconds = do
  ctx ← database self
  ms ← lift (rb.num2int milliseconds)
  set_database self (record ctx { stmt_timeout = ms })
  db ← deref ctx.db
  invoke_ (progress_handler db (if is_zero ms then negsuc 0 else pos 1000))
  pure self
