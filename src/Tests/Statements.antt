-- ===== src/Tests/Statements.antt =====
-- The theorems about statements, at the demo states.
use sqlite3_ruby.Base.{ℕ, ◌+◌, ◌≡◌, ◌≢◌, refl, true, false, none, List, [], ◌∷◌, arith, pos}
use sqlite3_ruby.Values.{object, raised, qfalse, Bytes, Ptr, qnil, fixnum, busy_exception}
use sqlite3_ruby.Env.{
  Ruby, Sqlite, Callback, Log, step_call, reset_call, finalize, busy_called, ruby_call,
}
use sqlite3_ruby.Callbacks.{enter, run_callback}
use sqlite3_ruby.Database.Hooks.{call_method, rb_sqlite3_busy_handler}
use sqlite3_ruby.Logs.{finalizes, live, is_safe}
use sqlite3_ruby.Machine.{World, ok, raise, final, update}
use sqlite3_ruby.Errors.Classes.{status2klass}
use sqlite3_ruby.Errors.Raise.{coded}
use sqlite3_ruby.Statement.Prepare.{statement_deallocate, sqlite3_rb_close, closed_p}
use sqlite3_ruby.Statement.Step.{step}
use sqlite3_ruby.Statement.Stepping.{IsLive, step_error}
use sqlite3_ruby.Statement.Invariant.{with_done}
use sqlite3_ruby.Statement.Closing.{Finishes, close_interrupted}
use sqlite3_ruby.Statement.Finalize.{Use, use_step, use_close, use_reset, use_bind}
use sqlite3_ruby.Tests.Demo.{rb_with, boom, open_struct, demo_lib, demo_rb, lib_with, busy_world}

abbrev sql_text : Bytes
sql_text = b'x' ∷ []

-- The connection at 1 was discarded.
abbrev discarded_world : World
discarded_world = record busy_world {
  databases =
      update busy_world.databases 1 (record (busy_world.databases 1) { db = none; flags = 2 });
}

abbrev usable : IsLive 2 1 88 busy_world
usable = record { prepared = refl; open_stmt = refl; live_db = refl }

-- The state after the step that meets the end.
abbrev ended_world : World
ended_world =
    with_done 2 (busy_world.statements 2) true (record busy_world { log = step_call 88 ∷ [] })

five_is_no_row : ◌≢◌ {A = ℕ} 5 100
five_is_no_row = ground arith

five_is_no_end : ◌≢◌ {A = ℕ} 5 101
five_is_no_end = ground arith

step_error_example :
    let log = reset_call 88 ∷ step_call 88 ∷ [] in
    let r = step ⦃lib = lib_with 5⦄ ⦃rb = demo_rb⦄ 2 busy_world in
    (r ≡ raise (coded busy_exception (b'n' ∷ b'o' ∷ []) 5) (final r))
    × ((final r).log ≡ log)
    × (((final r).statements 2).done_p ≡ false)
unfolding status2klass enter
step_error_example =
    step_error ⦃lib = lib_with 5⦄ ⦃rb = demo_rb⦄ 2 1 88 busy_world usable refl 5
      (record busy_world { log = step_call 88 ∷ [] }) refl busy_exception 5
      (record busy_world { log = reset_call 88 ∷ step_call 88 ∷ [] }) refl refl five_is_no_row
      five_is_no_end refl

abbrev life : List Use
life = use_bind (fixnum (pos 1)) qnil ∷ use_step ∷ use_reset ∷ use_close ∷ use_close ∷ use_step ∷ []

demo-Finishes : (p : Ptr) (w : World) → Finishes ⦃lib = demo_lib⦄ ⦃rb = demo_rb⦄ p w
unfolding enter
demo-Finishes p w = λ st h. (0, record w { log = finalize st ∷ w.log }, refl)

-- SQLite asks the busy handler while it finalizes a statement, and the handler raises.
abbrev asks_busy : Log → List Callback
asks_busy (finalize st ∷ log) = busy_called 1 0 ∷ []
asks_busy _ = []

abbrev busy_lib : Sqlite
busy_lib = record demo_lib { callbacks = asks_busy }

abbrev raising_rb : Ruby
raising_rb = rb_with (raised boom)

abbrev handled_world : World
handled_world = record busy_world {
  databases = update busy_world.databases 1 (record open_struct { busy_handler = object 5 });
}

abbrev interrupted_world : World
interrupted_world = record handled_world {
  log = ruby_call (object 5) call_method (fixnum (pos 0) ∷ []) ∷ finalize 88 ∷ [];
}

close_interrupted_example :
    let v = final (statement_deallocate ⦃lib = busy_lib⦄ ⦃rb = raising_rb⦄ 2 interrupted_world) in
    (sqlite3_rb_close ⦃lib = busy_lib⦄ ⦃rb = raising_rb⦄ 2 handled_world
      ≡ raise boom interrupted_world)
    × (closed_p 2 interrupted_world ≡ ok qfalse interrupted_world)
    × (live ⦃lib = busy_lib⦄ 88 interrupted_world.log ≡ false)
    × (finalizes 88 v.log ≡ finalizes 88 handled_world.log + 2)
    × (is_safe ⦃lib = busy_lib⦄ v.log ≡ false)
unfolding enter run_callback rb_sqlite3_busy_handler
close_interrupted_example =
    close_interrupted ⦃lib = busy_lib⦄ ⦃rb = raising_rb⦄ 2 88 handled_world interrupted_world boom
      refl refl

a_is_no_colon : ◌≢◌ {A = ℕ} b'a' b':'
a_is_no_colon = ground arith
