-- ===== src/Statement/Guards.antt =====
-- ext/sqlite3/statement.c: the checks that begin the methods.
use sqlite3_ruby.Base.{not, is_some}
use sqlite3_ruby.Values.{Ptr, sqlite3_exception}
use sqlite3_ruby.Machine.{Statement, M, when, rb_raise, ◌>>=◌, ◌>>◌, deref, database, statement}
use sqlite3_ruby.Database.Flags.{is_discarded}

-- REQUIRE_OPEN_STMT
abbrev pub require_open_stmt : Statement → M (Unit {0})
require_open_stmt s =
    when (not (is_some s.st)) (rb_raise sqlite3_exception "cannot use a closed statement")

-- REQUIRE_LIVE_DB. A statement that was never prepared has no database, and the macro dereferences
-- NULL.
abbrev pub require_live_db : Statement → M (Unit {0})
require_live_db s = do
  self ← deref s.db
  d ← database self
  when (is_discarded d)
      (rb_raise sqlite3_exception "cannot use a statement associated with a discarded database")

-- Both, in this order, and the handle: the beginning of most methods.
unfoldable pub live_stmt : Ptr → M Ptr
live_stmt self = do ctx ← statement self; require_live_db ctx; require_open_stmt ctx; deref ctx.st
