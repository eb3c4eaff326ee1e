-- ===== src/Database/Faults.antt =====
-- The two methods that use the connection without REQUIRE_OPEN_DB (ext/sqlite3/database.c).
use sqlite3_ruby.Base.{◌≡◌, none, ℤ}
use sqlite3_ruby.Values.{Ptr, Value, returned}
use sqlite3_ruby.Env.{Sqlite, Ruby}
use sqlite3_ruby.Machine.{fault, World}
use sqlite3_ruby.Database.Deadline.{with_timeout}
use sqlite3_ruby.Database.Discard.{discard_db, sqlite3_rb_discard}
use sqlite3_ruby.Database.Timeout.{set_statement_timeout}

module _ ⦃lib : Sqlite⦄ ⦃rb : Ruby⦄ (self : Ptr) (w : World) where
  -- On a closed database set_statement_timeout, with a number of milliseconds, stores the number and
  -- hands NULL to sqlite3_progress_handler, and sqlite3_rb_discard hands NULL to
  -- sqlite3_db_release_memory at once: neither raises an exception.
  pub closed_faults :
      (milliseconds : Value) (ms : ℤ)
      → (w.databases self).db ≡ none
      → rb.num2int milliseconds ≡ returned ms
      → (set_statement_timeout self milliseconds w ≡ fault (with_timeout self ms w))
        × (sqlite3_rb_discard self w ≡ fault w)
  unfolding set_statement_timeout sqlite3_rb_discard discard_db
  closed_faults milliseconds ms shut number = (rw (shut, number), rw shut)
