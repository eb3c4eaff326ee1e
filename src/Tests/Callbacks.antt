-- ===== src/Tests/Callbacks.antt =====
-- The theorems about functions, aggregates, collations and hooks, at the demo states.
use sqlite3_ruby.Base.{
  ℕ, none, some, ◌+◌, ◌/◌, ◌%◌, ◌≡◌, refl, true, false, List, [], ◌∷◌, All, arith, ℤ, pos,
}
use sqlite3_ruby.Values.{fixnum, object, Exception, returned, bytes_eq}
use sqlite3_ruby.Env.{SqlValue, ruby_call, Timespec}
use sqlite3_ruby.Machine.{World, ok, raise, slot_nil, slot_instance, update}
use sqlite3_ruby.Timespec.{billion, timespecisset, timespecisvalid}
use sqlite3_ruby.Roundtrip.{HasType}
use sqlite3_ruby.Database.Conversion.{func_result}
use sqlite3_ruby.Database.Handlers.{HooksAreLive, IsObliging}
use sqlite3_ruby.Database.Hooked.{serve_all, serve_all-HooksAreLive}
use sqlite3_ruby.Database.Services.{
  Service, use_trace, use_busy_handler, use_authorizer, use_busy_timeout, use_exec_batch,
}
use sqlite3_ruby.Database.Timeout.{progress}
use sqlite3_ruby.Database.Deadline.{answer, with_timeout, readings, Grows, progress_interrupts}
use sqlite3_ruby.Database.Mark.{database_mark}
use sqlite3_ruby.Database.Held.{functions_held, aggregates_held, collation_held}
use sqlite3_ruby.Database.Marking.{
  Request, function_request, collation_request, aggregator_request, perform_all, AllMarked,
  perform_all-AllMarked,
}
use sqlite3_ruby.Aggregator.Callbacks.{rb_sqlite3_aggregator_final, finalize_method}
use sqlite3_ruby.Aggregator.Protocol.{protocol}
use sqlite3_ruby.Aggregator.Instances.{Running}
use sqlite3_ruby.Aggregator.Execution.{execution, execution-protocol, final_unsupported}
use sqlite3_ruby.Tests.Demo.{
  demo_lib, demo_rb, aggregate_rb, demo_codes, rb_with, blank, busy_world,
}

abbrev integer_value : ℤ → SqlValue
integer_value n = record { type_code = 1; int64 = n; double = 0; text = []; blob = [] }

abbrev two_rows : List (List SqlValue)
two_rows = (integer_value (pos 3) ∷ []) ∷ (integer_value (pos 4) ∷ []) ∷ []

two_rows-HasType : All (All HasType) two_rows
two_rows-HasType = ground arith

execution-protocol_example :
    (g : World) × (execution ⦃lib = demo_lib⦄ ⦃rb = aggregate_rb⦄ 20 50 two_rows blank ≡ ok tt g)
    × (g.slots 50 ≡ slot_nil)
    × ((g.wrappers 20).instances ≡ [])
    × (g.log ≡ protocol ⦃rb = aggregate_rb⦄ 50 (object 9) two_rows [])
unfolding func_result
execution-protocol_example =
    execution-protocol ⦃lib = demo_lib⦄ ⦃rb = aggregate_rb⦄ 20 50 two_rows blank
      (λ handler log. refl) two_rows-HasType refl refl

-- An execution under way, whose handler is the object 9.
abbrev running_world : World
running_world = record blank {
  slots = update blank.slots 50 (slot_instance 60);
  instances = update blank.instances 60 (record { handler_instance = object 9; exc_status = 0 });
  wrappers = update blank.wrappers 20 (record { handler_klass = object 8; instances = 60 ∷ [] });
}

final_unsupported_example :
    (e : Exception) × (g : World) × (rb_sqlite3_aggregator_final
        ⦃rb = rb_with (returned (object 7))⦄ ⦃lib = demo_lib⦄ 20 50 running_world
      ≡ raise e g)
    × Running ⦃lib = demo_lib⦄ ⦃rb = rb_with (returned (object 7))⦄ 20 50 60
        (object 9)
        false
        []
        (ruby_call (object 9) finalize_method [] ∷ [])
        g
unfolding func_result
final_unsupported_example =
    final_unsupported ⦃lib = demo_lib⦄ ⦃rb = rb_with (returned (object 7))⦄ 20 50 60 (object 9)
      (object 7) [] [] running_world
      (record { slot = refl; handler_of = refl; status_of = refl; listed = refl; log_of = refl })
      refl refl

abbrev requests : List Request
requests =
    function_request (b'f' ∷ []) (fixnum (pos 1)) (object 30)
    ∷ collation_request (b'c' ∷ []) (object 31)
    ∷ aggregator_request (object 32) (b'a' ∷ [])
    ∷ []

perform_all-AllMarked_example :
    let g = perform_all ⦃lib = demo_lib⦄ ⦃rb = demo_rb⦄ 1 requests busy_world in
    AllMarked demo_lib bytes_eq
      (λ aw. (aw + 1) ∷ [])
      77
      g.log
      (database_mark (λ aw. (aw + 1) ∷ []) (g.databases 1))
unfolding functions_held aggregates_held collation_held
perform_all-AllMarked_example =
    perform_all-AllMarked ⦃lib = demo_lib⦄ ⦃rb = demo_rb⦄ bytes_eq demo_codes 1 77
      (λ aw. (aw + 1) ∷ []) requests busy_world refl refl refl (λ name. refl)

-- All three hooks are set and an SQL text is executed; then the busy handler gives way to a timeout,
-- and the tracer is removed.
abbrev hook_services : List Service
hook_services =
    use_trace (some (object 40)) none
    ∷ use_busy_handler (some (object 41)) none
    ∷ use_authorizer (object 42)
    ∷ use_exec_batch [] false
    ∷ use_busy_timeout (fixnum (pos 5))
    ∷ use_trace none none
    ∷ []

demo-IsObliging : IsObliging ⦃lib = demo_lib⦄ 1 77
demo-IsObliging = record { removes = λ log. refl; codes = demo_codes }

serve_all-HooksAreLive_example :
    HooksAreLive ⦃lib = demo_lib⦄ 1 77
      (serve_all ⦃lib = demo_lib⦄ ⦃rb = demo_rb⦄ 1 77 hook_services busy_world)
serve_all-HooksAreLive_example =
    serve_all-HooksAreLive ⦃lib = demo_lib⦄ ⦃rb = demo_rb⦄ 1 77 hook_services busy_world
      demo-IsObliging (record { connected = refl; tracer = refl; busy = refl; auth = refl })

abbrev at : ℕ → Timespec
at nanos = record { sec = 5; nsec = nanos }

-- A clock that ticks once in a nanosecond.
abbrev ticking : ℕ → Timespec
ticking m = record { sec = m / billion; nsec = m % billion }

ticking_valid : (m : ℕ) → timespecisvalid (ticking m) ≡ true
unfolding timespecisvalid
ticking_valid m = ground arith

ticking-Grows : Grows ticking
ticking-Grows bound = (bound + 1, omega arith)

progress_interrupts_example :
    (n : ℕ) × (answer
        (progress 1 (at 10 ∷ readings ticking 0 n) (with_timeout 1 (pos 1000) busy_world))
      ≡ true)
unfolding timespecisset timespecisvalid
progress_interrupts_example =
    progress_interrupts 1 (pos 1000) busy_world (at 10) ticking refl refl refl ticking_valid
      ticking-Grows
