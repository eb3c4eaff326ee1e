-- ===== src/Database/Opening.antt =====
-- Proofs about rb_sqlite3_open_v2 and rb_sqlite3_open16 (ext/sqlite3/database.c).
use sqlite3_ruby.Base.{
  ℕ, ◌≡◌, ◌&&◌, Bool, true, false, none, ◌∷◌, ◌==◌, arith, any, if◌then◌else◌, ℤ,
}
use sqlite3_ruby.Values.{Ptr, Bytes, Value, returned}
use sqlite3_ruby.Env.{Sqlite, Ruby, open_v2, close_v2}
use sqlite3_ruby.Machine.{World, Run, ok, final}
use sqlite3_ruby.Errors.Classes.{status2klass, IsResultCode}
use sqlite3_ruby.Errors.Raise.{rb_sqlite3_raise_msg}
use sqlite3_ruby.Database.Flags.{open_readonly, set_readonly}
use sqlite3_ruby.Database.Open.{open_failed, rb_sqlite3_open_v2}

-- Whether the run returns to its caller.
abbrev pub is_ok : {A : Type 0} → Run A → Bool
is_ok (ok a w) = true
is_ok _ = false

module _ ⦃lib : Sqlite⦄ ⦃rb : Ruby⦄ (self : Ptr) (w : World) (file : Bytes) (mode : Value)
    (flags : ℤ) (shut : (w.databases self).db ≡ none) (number : rb.num2int mode ≡ returned flags)
    (no_nul : any (λ c. c == 0) file ≡ false) where
  -- Opening a closed Database, without a VFS name: with SQLITE_OK it returns, keeps the handle that
  -- the library stored and has the READONLY bit set if the mode asks for it; with a status of a
  -- low byte other than 0 it raises that status's exception, the handle that the library stored is
  -- closed once, and the struct is left with no handle and its flags as they were.
  pub open_v2_outcome :
      (status : ℕ)
      → lib.status (open_v2 file flags none ∷ w.log) ≡ status
      → IsResultCode status
      → let r = rb_sqlite3_open_v2 self file mode none w in
        let log = open_v2 file flags none ∷ w.log in
        let d = (final r).databases self in
        (is_ok r ≡ (status == 0))
        × (d.db ≡ (if status == 0 then lib.handle log else none))
        × ((final r).log ≡ (if status == 0 then log else close_v2 (lib.handle log) ∷ log))
        × (d.flags ≡ (
            if (status == 0) && open_readonly flags
            then (set_readonly (w.databases self)).flags
            else (w.databases self).flags))
  unfolding rb_sqlite3_open_v2 open_failed rb_sqlite3_raise_msg status2klass
  open_v2_outcome status e h = ground arith
