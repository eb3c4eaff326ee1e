-- ===== src/Fork/Tracked.antt =====
-- lib/sqlite3/fork_safety.rb: the connections that a process tracks, and discard, which runs in the
-- child of a fork. `readonly` is what the constructor of lib/sqlite3/database.rb stored in @readonly.
use sqlite3_ruby.Base.{ℕ, ◌+◌, Bool, true, ◌||◌, List, [], ◌∷◌, ◌++◌, if◌then◌else◌}
use sqlite3_ruby.Values.{Ptr, rtest}
use sqlite3_ruby.Env.{Sqlite}
use sqlite3_ruby.Machine.{M, pure, ◌>>=◌}
use sqlite3_ruby.Database.Discard.{closed_p, sqlite3_rb_close}

-- A WeakRef to a Database that is alive, to one that was collected, or to one that is collected just
-- after weakref_alive? was asked, so that the next question raises RefError.
pub data WeakRef : Type 0 where
  alive : Ptr → WeakRef
  collected : WeakRef
  lost : WeakRef

-- @databases and @suppress.
pub record ForkSafety : Type 0 where
  pub databases : List WeakRef
  pub suppress : Bool

unfoldable pub track : Ptr → ForkSafety → ForkSafety
track database f = record f { databases = f.databases ++ alive database ∷ [] }

unfoldable pub suppress_warnings_bang : ForkSafety → ForkSafety
suppress_warnings_bang f = record f { suppress = true }

module _ ⦃lib : Sqlite⦄ (readonly : Ptr → Bool) where
  -- The loop of discard; the result is how often it warned.
  unfoldable pub discard_all : Bool → List WeakRef → M ℕ
  discard_all warned [] = pure 0
  discard_all warned (collected ∷ dbs) = discard_all warned dbs
  discard_all warned (lost ∷ dbs) = discard_all warned dbs
  discard_all warned (alive db ∷ dbs) = do
    closed ← closed_p db
    if rtest closed || readonly db then discard_all warned dbs else do
      self ← sqlite3_rb_close db
      warnings ← discard_all true dbs
      pure ((if warned then 0 else 1) + warnings)

  unfoldable pub discard : ForkSafety → M (ℕ × ForkSafety)
  discard f = do
    warnings ← discard_all f.suppress f.databases
    pure (warnings, record f { databases = [] })
