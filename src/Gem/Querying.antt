-- ===== src/Gem/Querying.antt =====
-- Proofs about query with a block (lib/sqlite3/database.rb over ext/sqlite3/statement.c).
use sqlite3_ruby.Base.{◌≡◌, refl, none, some}
use sqlite3_ruby.Values.{Ptr, Str, Exception, plain, lit, sqlite3_exception}
use sqlite3_ruby.Env.{Sqlite, Ruby}
use sqlite3_ruby.Machine.{World, Run, M, ok, raise, fault, out_of_fuel, Settles, ◌>>=◌, pure, final}
use sqlite3_ruby.Statement.Prepare.{sqlite3_rb_close, closed_p}
use sqlite3_ruby.Statement.Bind.{Pack}
use sqlite3_ruby.Statement.Closing.{Finishes}
use sqlite3_ruby.Gem.Binding.{Variables}
use sqlite3_ruby.Gem.ResultSet.{close}
use sqlite3_ruby.Gem.Connection.{ensured, close_unless_closed}
use sqlite3_ruby.Gem.Yielding.{in_state, ClosedFrom, closing, ensured-ok}
use sqlite3_ruby.Gem.Query.{query, query_yielding}

abbrev pub closed_error : Exception
closed_error = plain sqlite3_exception (lit "cannot use a closed statement")

module _ ⦃lib : Sqlite⦄ ⦃rb : Ruby⦄ (stmt : Ptr) where
  abbrev cleanup : M (Unit {0})
  cleanup = do self ← close stmt; pure tt

  -- An open statement is closed as prepare closes it.
  cleanup_open :
      (st : Ptr) (v : World)
      → (v.statements stmt).st ≡ some st
      → cleanup v ≡ close_unless_closed stmt v
  unfolding close close_unless_closed closed_p
  cleanup_open st v h = rw h

  cleanup_closed : (v : World) → (v.statements stmt).st ≡ none → cleanup v ≡ raise closed_error v
  unfolding close sqlite3_rb_close
  cleanup_closed v h = rw h

  ensured-raise :
      {A : Type 0} (r : Run A)
      → Settles r
      → cleanup (final r) ≡ raise closed_error (final r)
      → ensured r cleanup ≡ raise closed_error (final r)
  ensured-raise (ok a v) settles e = rw e refl
  ensured-raise (raise x v) settles e = rw e refl
  ensured-raise (fault v) settles e = absurd settles
  ensured-raise (out_of_fuel v) settles e = absurd settles

  module _ {A : Type 0} (pack : Pack) (db : Ptr) (sql : Str) (vars : Variables) (block : Ptr → M A)
      (w b : World) (executed : query pack db sql vars w ≡ ok stmt b)
      (settles : Settles (block stmt b)) where
    -- query with a block, where the query returned, the block ended by a value or by an exception and left
    -- the result set open, and the callbacks that the last sqlite3_finalize makes return: the outcome is
    -- the block's, and the statement is closed, its handle finalized once.
    pub query_yielding_closes :
        (st : Ptr)
        → ((final (block stmt b)).statements stmt).st ≡ some st
        → Finishes stmt (final (block stmt b))
        → (v : World) × (query_yielding pack db sql vars block w ≡ in_state (block stmt b) v)
          × ClosedFrom stmt (final (block stmt b)) v
    unfolding query_yielding
    query_yielding_closes st h finishes =
        let (v, e, c) = closing stmt (final (block stmt b)) _ refl finishes in
        (
          v,
          rw executed (
              ensured-ok stmt (block stmt b) cleanup v settles
                (rw (cleanup_open st (final (block stmt b)) h) e)),
          c,
        )

    -- query with a block that closed the result set itself: it raises SQLite3::Exception, whatever the block
    -- returned or raised.
    pub query_yielding_closed :
        ((final (block stmt b)).statements stmt).st ≡ none
        → query_yielding pack db sql vars block w ≡ raise closed_error (final (block stmt b))
    unfolding query_yielding
    query_yielding_closed h =
        rw executed (ensured-raise (block stmt b) settles (cleanup_closed (final (block stmt b)) h))
