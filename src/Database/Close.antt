-- ===== src/Database/Close.antt =====
-- What a close does (ext/sqlite3/database.c, close_or_discard_db), on every branch.
use sqlite3_ruby.Base.{
  ℕ, ◌+◌, ◌≡◌, ◌≢◌, inl, inr, Bool, ◌||◌, ◌&&◌, not, none, ◌==◌, arith, if◌then◌else◌, is_some,
  Bool-cases, Option-cases,
}
use sqlite3_ruby.Values.{Ptr}
use sqlite3_ruby.Env.{Sqlite}
use sqlite3_ruby.Machine.{World, Database, Run, ok, final}
use sqlite3_ruby.Database.Flags.{is_readonly, set_discarded}
use sqlite3_ruby.Database.Discard.{close_or_discard_db}
use sqlite3_ruby.Database.Lifecycle.{closes, HasFiles, discard_db_lem}

-- The connection may be closed in the process `pid`: it is read-only, or that process made it.
abbrev pub closes_properly : Database → ℕ → Bool
closes_properly d pid = is_readonly d || d.owner == pid

-- The struct after a close.
abbrev pub ended : Database → ℕ → Database
ended d pid =
    let shut = record d { db = none } in
    if is_some d.db && not (closes_properly d pid) then set_discarded shut else shut

-- The outcome of a close of the struct at `self`.
pub record Ended (w : World) (self : Ptr) (r : Run (Unit {0})) : Type 0 where
  pub returns : r ≡ ok tt (final r)
  pub struct : (final r).databases self ≡ ended (w.databases self) w.pid
  pub others : (q : Ptr) → q ≢ self → (final r).databases q ≡ w.databases q
  pub statements : (final r).statements ≡ w.statements
  pub pid : (final r).pid ≡ w.pid
  pub close_calls :
      closes (final r).log
      ≡ closes w.log
        + (if is_some (w.databases self).db && closes_properly (w.databases self) w.pid
            then 1
            else 0)

module _ ⦃lib : Sqlite⦄ (files : (db : Ptr) → HasFiles lib db) where
  -- Under the assumption that sqlite3_db_name ends and that a successful sqlite3_file_control stores
  -- a file, close_or_discard_db returns in every state, with the struct's handle NULL. It calls
  -- sqlite3_close_v2 once if the connection was open and is read-only or owned by this process, and
  -- never otherwise; it sets DISCARDED exactly on an open connection of the other kind; and all
  -- other structs stay as they were.
  pub close_or_discard_db-Ended :
      (self : Ptr) (w : World) → Ended w self (close_or_discard_db self w)
  unfolding close_or_discard_db
  close_or_discard_db-Ended self w = elim (Option-cases (w.databases self).db) [
    | inl e ↦ record {
      returns = ground arith;
      struct = ground arith;
      others = ground arith;
      statements = ground arith;
      pid = ground arith;
      close_calls = ground arith;
    }
    | inr (db, e) ↦ elim (Bool-cases (closes_properly (w.databases self) w.pid)) [
      | inl p ↦ record {
        returns = ground arith;
        struct = ground arith;
        others = ground arith;
        statements = ground arith;
        pid = ground arith;
        close_calls = ground arith;
      }
      | inr p ↦
          let (ran, same) = discard_db_lem (files db) self w e in
          rw (e, p)
            (rw ran (record {
              returns = ground arith;
              struct = ground arith;
              others = ground arith;
              statements = ground arith;
              pid = ground arith;
              close_calls = ground arith;
            }))
    ]
  ]
