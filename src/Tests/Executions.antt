-- ===== src/Tests/Executions.antt =====
-- The theorems about the callbacks of a step and about whole executions, at the demo states.
use sqlite3_ruby.Base.{
  if◌then◌else◌, ℕ, ◌≡◌, ◌≢◌, refl, true, false, none, List, [], ◌∷◌, ◌++◌, map, any, All, ◌==◌,
  pos, arith,
}
use sqlite3_ruby.Values.{
  returned, Answer, qnil, Ptr, Value, fixnum, object, raised, utf8_str_new, string,
}
use sqlite3_ruby.Env.{
  function_called, Ruby, result_call, null_datum, Sqlite, Log, Callback, compared, ruby_call,
  result_error, step_call,
}
use sqlite3_ruby.Machine.{World, ok, raise, slot_nil}
use sqlite3_ruby.Callbacks.{run_callback, enter, run_callbacks}
use sqlite3_ruby.Callbacks.Functions.{FunctionCall, to_callback, run_functions}
use sqlite3_ruby.Database.Hooks.{call_method}
use sqlite3_ruby.Database.Conversion.{
  rb_sqlite3_func, set_sqlite3_func_result, params2rb, func_result, comparator_arg, compare_method,
}
use sqlite3_ruby.Aggregator.Tracking.{IsTracked}
use sqlite3_ruby.Aggregator.Interleaving.{
  Event, stepped, finished, event_callback, interleaved-IsTracked,
}
use sqlite3_ruby.Statement.Step.{step, columns2rb, column2rb}
use sqlite3_ruby.Statement.Stepping.{IsLive}
use sqlite3_ruby.Statement.Exceptions.{step-run_functions, step-hook_call}
use sqlite3_ruby.Statement.Each.{Row, each, Delivery, ended, row, computing, each-Delivery}
use sqlite3_ruby.Statement.Invariant.{with_done}
use sqlite3_ruby.Registration.Calls.{Build}
use sqlite3_ruby.Registration.Library.{init_sqlite3_native}
use sqlite3_ruby.Registration.Sound.{IsSound, is_usable, init_sqlite3_native-IsSound}
use sqlite3_ruby.Tests.Demo.{
  demo_lib, demo_rb, aggregate_rb, lib_with, lib_calling, rb_with, boom, blank, busy_world,
}

abbrev at_two : IsLive 2 1 88 busy_world
at_two = record { prepared = refl; open_stmt = refl; live_db = refl }

abbrev two_calls : List FunctionCall
two_calls = (object 30, 50, []) ∷ (object 31, 51, []) ∷ []

abbrev calls_log : Log
calls_log =
    result_error 51
    ∷ ruby_call (object 31) call_method []
    ∷ result_error 50
    ∷ ruby_call (object 30) call_method []
    ∷ step_call 88
    ∷ []

step-run_functions_example :
    step ⦃lib = lib_calling (map to_callback two_calls) 1⦄ ⦃rb = rb_with (raised boom)⦄ 2 busy_world
    ≡ raise boom (record busy_world { log = calls_log; errinfo = none })
unfolding run_functions params2rb
step-run_functions_example =
    step-run_functions ⦃lib = lib_calling (map to_callback two_calls) 1⦄
      ⦃rb = rb_with (raised boom)⦄ 2 1 88 busy_world at_two refl two_calls refl refl

-- A function returns, and then a comparison raises.
abbrev comparison : Callback
comparison = compared (object 40) (b'a' ∷ []) (b'b' ∷ [])

abbrev operands : List Value
operands = string (utf8_str_new (b'a' ∷ [])) ∷ string (utf8_str_new (b'b' ∷ [])) ∷ []

abbrev function_call : Callback
function_call = function_called (object 30) 50 []

abbrev comparing : Sqlite
comparing = lib_calling (function_call ∷ comparison ∷ []) 0

-- The comparator raises, all other methods return nil.
abbrev of_method : Log → Answer Value
of_method (ruby_call (object n) method args ∷ log) = if n == 40 then raised boom else returned qnil
of_method _ = returned qnil

abbrev picky_rb : Ruby
picky_rb = record demo_rb { funcall = of_method }

abbrev function_log : Log
function_log = result_call 50 null_datum ∷ ruby_call (object 30) call_method [] ∷ step_call 88 ∷ []

step-hook_call_example :
    step ⦃lib = comparing⦄ ⦃rb = picky_rb⦄ 2 busy_world
    ≡ raise boom
        (record busy_world { log = ruby_call (object 40) compare_method operands ∷ function_log })
unfolding comparator_arg run_callbacks run_callback rb_sqlite3_func params2rb
    set_sqlite3_func_result
step-hook_call_example =
    step-hook_call ⦃lib = comparing⦄ ⦃rb = picky_rb⦄ 2 1 88 busy_world at_two refl
      (function_call ∷ []) [] comparison (record busy_world { log = function_log }) (object 40)
      compare_method operands boom refl refl refl refl

-- Two contexts of the aggregate whose wrapper is at 20.
abbrev aggregate : Ptr → Ptr
aggregate ctx = 20

abbrev two_groups : List Event
two_groups = stepped 50 [] ∷ stepped 51 [] ∷ finished 50 ∷ stepped 51 [] ∷ finished 51 ∷ []

blank-IsTracked : IsTracked aggregate blank
blank-IsTracked = record {
  listed = λ ctx i h. cc;
  live = λ aw i h. absurd (ground arith);
  distinct = λ c d i h k. cc;
  bounded = λ ctx i h. absurd (ground arith);
}

no_memory_is_open : (c : Ptr) → blank.slots c ≢ slot_nil
no_memory_is_open c h = cc

interleaved-IsTracked_example :
    (g : World) × (run_callbacks ⦃lib = demo_lib⦄ ⦃rb = aggregate_rb⦄
        (map (event_callback aggregate) two_groups)
        blank
      ≡ ok tt g)
    × IsTracked aggregate g
    × ((c : Ptr) → any (λ d. d == c) (51 ∷ 50 ∷ []) ≡ true → g.slots c ≡ slot_nil)
unfolding func_result
interleaved-IsTracked_example =
    interleaved-IsTracked aggregate ⦃lib = demo_lib⦄ ⦃rb = aggregate_rb⦄ (λ log ctx. refl)
      (λ handler log. refl) two_groups blank (ground arith) refl blank-IsTracked no_memory_is_open

-- A statement with one row.
abbrev row_then_end : Log → ℕ
row_then_end (step_call st ∷ step_call st' ∷ log) = 101
row_then_end _ = 100

abbrev one_row : Sqlite
one_row = record (lib_with 100) { status = row_then_end }

abbrev after_steps : Log → World
after_steps log = record busy_world { log = log }

abbrev last_log : Log
last_log = step_call 88 ∷ step_call 88 ∷ []

abbrev only_row : Row
only_row = fixnum (pos 5) ∷ fixnum (pos 6) ∷ []

abbrev append : List Row → Row → List Row
append rows r = rows ++ r ∷ []

one_delivery :
    Delivery ⦃lib = one_row⦄ ⦃rb = demo_rb⦄ 2 88 busy_world
      (only_row ∷ [])
      none
      (with_done 2 (busy_world.statements 2) true (after_steps last_log))
unfolding enter columns2rb column2rb
one_delivery =
    row {v = after_steps (step_call 88 ∷ [])} refl refl refl
      (ended {v = after_steps last_log} refl refl)

each-Delivery_example :
    each ⦃lib = one_row⦄ ⦃rb = demo_rb⦄ 2 (computing append) 2 [] busy_world
    ≡ ok (only_row ∷ []) (with_done 2 (busy_world.statements 2) true (after_steps last_log))
each-Delivery_example =
    each-Delivery ⦃lib = one_row⦄ ⦃rb = demo_rb⦄ append 2 1 88 2 [] at_two refl one_delivery
      (omega arith)

-- A build with everything but the packaged libraries.
abbrev full_build : Build
full_build = record {
  omit_progress_callback = false;
  have_load_extension = true;
  have_enable_load_extension = true;
  have_column_database_name = true;
  has_memused = true;
  have_backup_init = true;
  have_initialize = true;
  has_open_autoproxy = true;
  has_open_uri = true;
  has_open_memory = true;
  packaged_libraries = false;
  precompiled_libraries = false;
}

init_sqlite3_native-IsSound_example :
    All IsSound (init_sqlite3_native full_build)
    × (is_usable [] (init_sqlite3_native full_build) ≡ true)
init_sqlite3_native-IsSound_example = init_sqlite3_native-IsSound full_build
