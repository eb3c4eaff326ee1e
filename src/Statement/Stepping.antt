-- ===== src/Statement/Stepping.antt =====
-- Proofs about step (ext/sqlite3/statement.c): rows, the end, errors and pending exceptions.
use sqlite3_ruby.Base.{
  ℕ, zero, suc, ◌+◌, ◌≡◌, ◌≢◌, refl, true, false, none, some, List, ◌∷◌, arith, ◌==◌, length,
  ==_refl, ap, ◌∙◌,
}
use sqlite3_ruby.Values.{Ptr, Value, Class, Exception, Answer, returned, raised}
use sqlite3_ruby.Env.{Sqlite, Ruby, Log, step_call, reset_call}
use sqlite3_ruby.Callbacks.{enter}
use sqlite3_ruby.Callbacks.Kept.{Kept}
use sqlite3_ruby.Callbacks.Keeping.{enter-Kept}
use mathlib.Core.Path.{subst}
use sqlite3_ruby.Machine.{World, ok, raise, update, final}
use sqlite3_ruby.Errors.Classes.{status2klass}
use sqlite3_ruby.Errors.Raise.{coded, rb_sqlite3_raise}
use sqlite3_ruby.Database.Flags.{is_discarded}
use sqlite3_ruby.Database.Conversion.{and_also}
use sqlite3_ruby.Statement.Guards.{live_stmt}
use sqlite3_ruby.Statement.Prepare.{reset_bang}
use sqlite3_ruby.Statement.Step.{
  step, step_result, failed_step, columns2rb, column2rb, reraise_pending,
}
use sqlite3_ruby.Statement.Invariant.{with_done}

-- A statement that can be used: its handle and its database.
pub record IsLive (self db st : Ptr) (w : World) : Type 0 where
  pub prepared : (w.statements self).db ≡ some db
  pub open_stmt : (w.statements self).st ≡ some st
  pub live_db : is_discarded (w.databases db) ≡ false

module _ {self db st : Ptr} {w : World} (live : IsLive self db st w) where
  pub live_stmt-ok : live_stmt self w ≡ ok st w
  unfolding live_stmt
  live_stmt-ok = rw (live.prepared, live.live_db, live.open_stmt)

pub ne_test : (a b : ℕ) → a ≢ b → (a == b) ≡ false
ne_test a b h = ground arith

module _ (w : World) where
  pub reraise_none : w.errinfo ≡ none → reraise_pending w ≡ ok tt w
  unfolding reraise_pending
  reraise_none e = ground arith

  pub reraise_some :
      (e : Exception)
      → w.errinfo ≡ some e
      → reraise_pending w ≡ raise e (record w { errinfo = none })
  unfolding reraise_pending
  reraise_some x e = rw (e, reraise_pending)

-- Callbacks do not close the statement or its database.
pub live-Kept :
    ⦃lib : Sqlite⦄ {self db st : Ptr} {log : Log} {w g : World}
    → Kept (record w { log = log }) g
    → IsLive self db st w
    → IsLive self db st g
live-Kept {self} {db} k live = record {
  prepared = ap (λ f. (f self).db) k.statements ∙ live.prepared;
  open_stmt = ap (λ f. (f self).st) k.statements ∙ live.open_stmt;
  live_db = ap is_discarded (k.connections db) ∙ live.live_db;
}

module _ ⦃lib : Sqlite⦄ ⦃rb : Ruby⦄ where
  -- The conversion of the columns, one by one.
  columns_length :
      (a : Answer Value) (b : Answer (List Value)) (n : ℕ) (list : List Value)
      → and_also a b ≡ returned list
      → ((rest : List Value) → b ≡ returned rest → length rest ≡ n)
      → length list ≡ suc n
  columns_length (returned v) (returned vs) n list e h = ground (arith, h vs refl)
  columns_length (returned v) (raised x) n list e h = cc
  columns_length (raised x) b n list e h = cc

  length-columns2rb :
      (log : Log) (stmt : Ptr) (count i : ℕ) (list : List Value)
      → columns2rb log stmt count i ≡ returned list
      → length list ≡ count
  unfolding columns2rb
  length-columns2rb log stmt zero i list e = ground arith
  length-columns2rb log stmt (suc count) i list e =
      columns_length (column2rb log stmt i) (columns2rb log stmt count (i + 1)) count list e
        λ rest f. length-columns2rb log stmt count (i + 1) rest f

  pub entered-Kept :
      (st value : ℕ) (w g : World)
      → enter (step_call st) w ≡ ok value g
      → Kept (record w { log = step_call st ∷ w.log }) g
  entered-Kept st value w g e =
      subst (λ r. Kept (record w { log = step_call st ∷ w.log }) (final r)) e
        (enter-Kept (step_call st) w)

  -- An exception of a callback that goes through sqlite3_step leaves the step.
  pub step_leaves :
      (self db st : Ptr) (w : World)
      → IsLive self db st w
      → (w.statements self).done_p ≡ false
      → (e : Exception) (g : World) → enter (step_call st) w ≡ raise e g
      → step self w ≡ raise e g
  unfolding step
  step_leaves self db st w live fresh e g entered = rw (live_stmt-ok live, fresh, entered)

  -- A step up to the end of sqlite3_step and of its callbacks.
  module _ (self db st : Ptr) (w : World) (live : IsLive self db st w)
      (fresh : (w.statements self).done_p ≡ false) (value : ℕ) (g : World)
      (entered : enter (step_call st) w ≡ ok value g) where
    pub quiet_step :
        g.errinfo ≡ none → step self w ≡ step_result self (w.statements self) st value g
    unfolding step
    quiet_step quiet = rw (live_stmt-ok live, fresh, entered, reraise_none g quiet)

    -- A step that meets SQLITE_ROW, with no exception pending after the callbacks of sqlite3_step and
    -- columns of the five types, returns their values in order, as many as the statement has columns;
    -- it changes nothing but what that call and its callbacks did.
    pub step_row :
        (list : List Value)
        → value ≡ 100
        → g.errinfo ≡ none
        → columns2rb g.log st (lib.column_count g.log st) 0 ≡ returned list
        → (step self w ≡ ok (some list) g) × (length list ≡ lib.column_count g.log st)
    unfolding step_result
    step_row list row quiet e = (rw (quiet_step quiet, row, e), length-columns2rb _ st _ 0 list e)

    -- A column whose type is none of the five: the step raises.
    pub step_bad_row :
        (e : Exception)
        → value ≡ 100
        → g.errinfo ≡ none
        → columns2rb g.log st (lib.column_count g.log st) 0 ≡ raised e
        → step self w ≡ raise e g
    unfolding step_result
    step_bad_row e row quiet bad = rw (quiet_step quiet, row, bad)

    -- The state after a step that met SQLITE_DONE.
    abbrev at_end : World
    at_end = record g {
      statements = update g.statements self (record (w.statements self) { done_p = true });
    }

    pub step_end : value ≡ 101 → g.errinfo ≡ none → step self w ≡ ok none at_end
    unfolding step_result
    step_end done quiet = rw (quiet_step quiet, done)

    live_at_end : live_stmt self at_end ≡ ok st at_end
    live_at_end =
        let l = live-Kept (entered-Kept st value w g entered) live in
        live_stmt-ok {db = db} (record {
          prepared = ground (arith, live.prepared);
          open_stmt = ground (arith, live.open_stmt);
          live_db = l.live_db;
        })

    -- At the end another step answers nil, with no call and no change.
    pub step_again : step self at_end ≡ ok none at_end
    unfolding step
    step_again = rw (live_at_end, ==_refl self) refl

    -- A step that meets SQLITE_DONE, with no exception pending after the callbacks, answers nil and
    -- sets done?. From then on a step answers nil with no call to the library and no change, until a
    -- reset! whose callbacks return, which returns and clears done?.
    pub step_done :
        (code : ℕ) (u : World)
        → value ≡ 101
        → g.errinfo ≡ none
        → enter (reset_call st) at_end ≡ ok code u
        → let v = final (step self w) in
          let r = reset_bang self v in
          (step self w ≡ ok none v)
          × ((v.statements self).done_p ≡ true)
          × (step self v ≡ ok none v)
          × (r ≡ ok self (final r))
          × (((final r).statements self).done_p ≡ false)
    unfolding step reset_bang
    step_done code u done quiet resetting =
        rw (step_end done quiet, live_at_end, resetting, ==_refl self)
          (refl, refl, refl, refl, refl)

    -- An exception that a callback left in rb_errinfo is raised by the step, whatever sqlite3_step
    -- returned; rb_errinfo is nil again, and the statement is as the callbacks left it.
    pub step_pending :
        (e : Exception) → g.errinfo ≡ some e → step self w ≡ raise e (record g { errinfo = none })
    unfolding step
    step_pending e waiting = rw (live_stmt-ok live, fresh, entered, reraise_some g e waiting)

    -- The state after a step that met an error, when sqlite3_reset and its callbacks left `u`.
    abbrev after_reset : World → World
    after_reset u = with_done self (w.statements self) false u

    pub step_raises :
        (klass : Class) (code : ℕ) (u : World)
        → g.errinfo ≡ none
        → status2klass value ≡ some klass
        → value ≢ 100
        → value ≢ 101
        → enter (reset_call st) g ≡ ok code u
        → step self w
          ≡ raise (coded klass (lib.errmsg u.log (lib.db_handle u.log st)) value) (after_reset u)
    unfolding step_result failed_step rb_sqlite3_raise
    step_raises klass code u quiet k no_row no_end resetting =
        rw (quiet_step quiet, ne_test value 100 no_row, ne_test value 101 no_end, resetting)
          (rw (k, rb_sqlite3_raise))

    -- An exception that leaves a callback of that sqlite3_reset takes the place of the error's.
    pub step_reset_raises :
        (e : Exception) (u : World)
        → g.errinfo ≡ none
        → value ≢ 100
        → value ≢ 101
        → enter (reset_call st) g ≡ raise e u
        → step self w ≡ raise e u
    unfolding step_result failed_step
    step_reset_raises e u quiet no_row no_end resetting =
        rw (quiet_step quiet, ne_test value 100 no_row, ne_test value 101 no_end, resetting) refl

    -- A step that meets an error, with no exception pending after the callbacks, resets the statement;
    -- when the callbacks of that call return, it raises the exception of the result code, with the
    -- message of the connection, and makes no other call; the statement can be stepped again.
    pub step_error :
        (klass : Class) (code : ℕ) (u : World)
        → g.errinfo ≡ none
        → status2klass value ≡ some klass
        → value ≢ 100
        → value ≢ 101
        → enter (reset_call st) g ≡ ok code u
        → let r = step self w in
          (r ≡ raise (coded klass (lib.errmsg u.log (lib.db_handle u.log st)) value) (final r))
          × ((final r).log ≡ u.log)
          × (((final r).statements self).done_p ≡ false)
    step_error klass code u quiet k no_row no_end resetting =
        rw (step_raises klass code u quiet k no_row no_end resetting)
          (refl, refl, rw (==_refl self))
