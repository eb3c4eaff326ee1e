-- ===== src/Statement/Each.antt =====
-- lib/sqlite3/resultset.rb over ext/sqlite3/statement.c: the rows of a result set, one step each.
use sqlite3_ruby.Base.{
  ℕ, zero, suc, ◌<◌, ◌≡◌, ◌≢◌, refl, false, true, none, some, Option, List, [], ◌∷◌, length, arith,
  ap, ◌∙◌,
}
use mathlib.Core.List.{foldl}
use sqlite3_ruby.Values.{Ptr, Value, Exception, Class, returned, raised}
use sqlite3_ruby.Env.{Sqlite, Ruby, Log, step_call, reset_call}
use sqlite3_ruby.Machine.{World, Run, M, ok, raise, out_of_fuel, pure, ◌>>=◌}
use sqlite3_ruby.Errors.Classes.{status2klass}
use sqlite3_ruby.Errors.Raise.{coded}
use sqlite3_ruby.Callbacks.{enter}
use sqlite3_ruby.Statement.Step.{step, columns2rb}
use sqlite3_ruby.Statement.Invariant.{with_done}
use sqlite3_ruby.Statement.Stepping.{
  IsLive, live-Kept, entered-Kept, step_row, step_end, step_pending, step_raises, step_reset_raises,
  step_leaves, step_bad_row,
}

abbrev pub Row : Type 0
Row = List Value

-- What the loop does with a step's answer: nil ends it, a row goes to the block.
abbrev pub each_row : {S : Type 0} → (S → Option Row → M S) → (S → M S) → S → Option Row → M S
each_row block again s none = pure s
each_row block again s (some row) = block s (some row) >>= again

module _ ⦃lib : Sqlite⦄ ⦃rb : Ruby⦄ where
  -- `next` is the step of the statement.
  unfoldable pub next : Ptr → M (Option Row)
  next stmt = step stmt

  -- `while (node = self.next)`, at most `fuel` times; the block gets the values that it keeps, `s`, and
  -- a row, and returns the values that it keeps then.
  unfoldable pub each : {S : Type 0} → ℕ → (S → Option Row → M S) → Ptr → S → M S
  each zero block stmt s w = out_of_fuel w
  each (suc fuel) block stmt s w = (next stmt >>= each_row block (each fuel block stmt) s) w

-- The exception of a step that met an error.
abbrev pub step_exception : ⦃lib : Sqlite⦄ → Ptr → Class → ℕ → Log → Exception
step_exception ⦃lib⦄ st klass value log = coded klass (lib.errmsg log (lib.db_handle log st)) value

module _ ⦃lib : Sqlite⦄ ⦃rb : Ruby⦄ (stmt st : Ptr) where
  -- What the library delivers to one step after the other, up to the end or to an exception, and the
  -- state that is left. The exceptions are one that a function left in rb_errinfo (`left`), one that a
  -- callback raised through sqlite3_step (`left_at_once`) or through the sqlite3_reset after an error
  -- (`failed_twice`), that of an error code (`failed`), and that of a column of no known type
  -- (`bad_row`). A code that is none of SQLITE_ROW and SQLITE_DONE has an exception class.
  pub data Delivery : World → List Row → Option Exception → World → Type 0 where
    ended :
        {w v : World}
        → enter (step_call st) w ≡ ok 101 v
        → v.errinfo ≡ none
        → Delivery w [] none (with_done stmt (w.statements stmt) true v)
    left :
        {w v : World} {value : ℕ} {e : Exception}
        → enter (step_call st) w ≡ ok value v
        → v.errinfo ≡ some e
        → Delivery w [] (some e) (record v { errinfo = none })
    failed :
        {w v u : World} {value code : ℕ} {klass : Class}
        → enter (step_call st) w ≡ ok value v
        → v.errinfo ≡ none
        → status2klass value ≡ some klass
        → value ≢ 100
        → value ≢ 101
        → enter (reset_call st) v ≡ ok code u
        → Delivery w []
            (some (step_exception st klass value u.log))
            (with_done stmt (w.statements stmt) false u)
    failed_twice :
        {w v u : World} {value : ℕ} {e : Exception}
        → enter (step_call st) w ≡ ok value v
        → v.errinfo ≡ none
        → value ≢ 100
        → value ≢ 101
        → enter (reset_call st) v ≡ raise e u
        → Delivery w [] (some e) u
    left_at_once :
        {w v : World} {e : Exception}
        → enter (step_call st) w ≡ raise e v
        → Delivery w [] (some e) v
    bad_row :
        {w v : World} {e : Exception}
        → enter (step_call st) w ≡ ok 100 v
        → v.errinfo ≡ none
        → columns2rb v.log st (lib.column_count v.log st) 0 ≡ raised e
        → Delivery w [] (some e) v
    row :
        {w v g : World} {r : Row} {rows : List Row} {outcome : Option Exception}
        → enter (step_call st) w ≡ ok 100 v
        → v.errinfo ≡ none
        → columns2rb v.log st (lib.column_count v.log st) 0 ≡ returned r
        → Delivery v rows outcome g
        → Delivery w (r ∷ rows) outcome g

-- A value, or the exception.
abbrev pub returns : {S : Type 0} → S → Option Exception → World → Run S
returns s none g = ok s g
returns s (some e) g = raise e g

-- A block that only computes.
abbrev pub computing : {S : Type 0} → (S → Row → S) → S → Option Row → M S
computing block s none = pure s
computing block s (some r) = pure (block s r)

module _ ⦃lib : Sqlite⦄ ⦃rb : Ruby⦄ {S : Type 0} (block : S → Row → S) (stmt db st : Ptr) where
  -- For a block that only computes, and a usable statement that is not at its end, whose steps deliver
  -- rows and then the end, an error code, an exception that a callback left in rb_errinfo or raised
  -- through the step or its reset, or a column of no known type: with more rounds than rows, `each`
  -- ends. The block was called with each row once and in order, and then the loop returns at the end,
  -- with done? set, and raises the exception otherwise.
  pub each-Delivery :
      {w g : World} {rows : List Row} {outcome : Option Exception} (fuel : ℕ) (s : S)
      → IsLive stmt db st w
      → (w.statements stmt).done_p ≡ false
      → Delivery stmt st w rows outcome g
      → length rows < fuel
      → each fuel (computing block) stmt s w ≡ returns (foldl block s rows) outcome g
  unfolding each next
  each-Delivery zero s live fresh d h = absurd (omega arith)
  each-Delivery {w} (suc fuel) s live fresh (ended {v = v} entered quiet) h =
      rw (step_end stmt db st w live fresh 101 v entered refl quiet)
  each-Delivery {w} (suc fuel) s live fresh (left {v = v} {value = value} {e = e} entered waiting)
        h =
      rw (step_pending stmt db st w live fresh value v entered e waiting)
  each-Delivery {w} (suc fuel) s live fresh
        (failed {v = v} {u = u} {value = value} {code = code} {klass = klass} entered quiet k no_row
          no_end resetting)
        h =
      rw (
        step_raises stmt db st w live fresh value v entered klass code u quiet k no_row no_end
          resetting)
  each-Delivery {w} (suc fuel) s live fresh
        (failed_twice {v = v} {u = u} {value = value} {e = e} entered quiet no_row no_end resetting)
        h =
      rw (
        step_reset_raises stmt db st w live fresh value v entered e u quiet no_row no_end resetting)
  each-Delivery {w} (suc fuel) s live fresh (left_at_once {v = v} {e = e} entered) h =
      rw (step_leaves stmt db st w live fresh e v entered)
  each-Delivery {w} (suc fuel) s live fresh (bad_row {v = v} {e = e} entered quiet bad) h =
      rw (step_bad_row stmt db st w live fresh 100 v entered e refl quiet bad)
  each-Delivery {w} (suc fuel) s live fresh (row {v = v} {r = r} entered quiet e rest) h =
      let k = entered-Kept st 100 w v entered in
      rw ((step_row stmt db st w live fresh 100 v entered r refl quiet e).0) (
        each-Delivery fuel (block s r) (live-Kept k live)
          (ap (λ f. (f stmt).done_p) k.statements ∙ fresh) rest (omega arith))
