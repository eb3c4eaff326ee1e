-- ===== src/Statement/Exceptions.antt =====
-- Proofs about the exceptions of the callbacks of step (ext/sqlite3/statement.c with the callbacks of
-- database.c): those that rb_protect keeps for the end of sqlite3_step, and those that nothing stops.
use sqlite3_ruby.Base.{
  ◌≡◌, refl, false, Option, none, some, List, [], ◌∷◌, map, ◌++◌, ap, sym, pos, arith,
}
use sqlite3_ruby.Values.{Ptr, Bytes, Value, Exception, raised, string, str_new, ll2num}
use sqlite3_ruby.Env.{
  Sqlite, Ruby, Log, step_call, ruby_call, Callback, function_called, aggregate_stepped,
  aggregate_finished, compared, traced, busy_called, progressed, authorized,
}
use mathlib.Core.Path.{subst}
use sqlite3_ruby.Machine.{World, Run, M, ok, raise, fault, out_of_fuel, and_then, final}
use sqlite3_ruby.Database.Conversion.{rb_comparator_func, comparator_arg, compare_method}
use sqlite3_ruby.Database.Hooks.{
  call_method, str_or_nil, tracefunc, rb_sqlite3_busy_handler, rb_sqlite3_auth,
}
use sqlite3_ruby.Callbacks.{enter, run_callback, run_callbacks}
use sqlite3_ruby.Callbacks.Functions.{
  FunctionCall, to_callback, with_outcome, run_functions, run_callbacks-run_functions,
}
use sqlite3_ruby.Statement.Step.{step, step_result}
use sqlite3_ruby.Statement.Stepping.{IsLive, live_stmt-ok, step_pending, quiet_step}

-- The exception that waits is raised, or the command goes on.
abbrev pub raise_or : {A : Type 0} → M A → World → Option Exception → Run A
raise_or k w none = k w
raise_or k w (some e) = raise e w

module _ ⦃lib : Sqlite⦄ ⦃rb : Ruby⦄ where
  -- The method call that a hook or a comparator makes: the object, the method and its arguments.
  abbrev pub hook_call : World → Callback → Option (Value × Bytes × List Value)
  hook_call w (function_called callable ctx argv) = none
  hook_call w (aggregate_stepped aw ctx argv) = none
  hook_call w (aggregate_finished aw ctx) = none
  hook_call w (compared comparator a b) =
      some (comparator, compare_method, comparator_arg a ∷ comparator_arg b ∷ [])
  hook_call w (traced self sql) =
      some ((w.databases self).trace_handler, call_method, string (str_new sql) ∷ [])
  hook_call w (busy_called self count) =
      some ((w.databases self).busy_handler, call_method, ll2num (pos count) ∷ [])
  hook_call w (progressed self now) = none
  hook_call w (authorized self action a b c d) = some (
    (w.databases self).authorizer,
    call_method,
    ll2num action ∷ map str_or_nil (a ∷ b ∷ c ∷ d ∷ []),
  )

  hook_raises :
      (c : Callback) (v : Value) (m : Bytes) (args : List Value) (e : Exception) (w : World)
      → hook_call w c ≡ some (v, m, args)
      → rb.funcall (ruby_call v m args ∷ w.log) ≡ raised e
      → run_callback c w ≡ raise e (record w { log = ruby_call v m args ∷ w.log })
  unfolding run_callback rb_comparator_func tracefunc rb_sqlite3_busy_handler rb_sqlite3_auth
  hook_raises (function_called callable ctx argv) v m args e w h answer = cc
  hook_raises (aggregate_stepped aw ctx argv) v m args e w h answer = cc
  hook_raises (aggregate_finished aw ctx) v m args e w h answer = cc
  hook_raises (compared comparator a b) v m args e w h answer = ground arith
  hook_raises (traced self sql) v m args e w h answer = ground arith
  hook_raises (busy_called self count) v m args e w h answer = ground arith
  hook_raises (progressed self now) v m args e w h answer = cc
  hook_raises (authorized self action a b c d) v m args e w h answer = ground arith

  then_ok :
      {B : Type 0} (r : Run (Unit {0})) (k : M B) (b : B) (u : World)
      → and_then r (λ _. k) ≡ ok b u
      → (v : World) × (r ≡ ok tt v) × (k v ≡ ok b u)
  then_ok (ok tt v) k b u h = (v, refl, h)
  then_ok (raise e v) k b u h = cc
  then_ok (fault v) k b u h = cc
  then_ok (out_of_fuel v) k b u h = cc

  run_callbacks-raise :
      (before later : List Callback) (c : Callback) (w u : World) {e : Exception} {g : World}
      → run_callbacks before w ≡ ok tt u
      → run_callback c u ≡ raise e g
      → run_callbacks (before ++ c ∷ later) w ≡ raise e g
  unfolding run_callbacks
  run_callbacks-raise [] later c w u {e} {g} ran raises =
      rw (subst (λ x. run_callback c x ≡ raise e g) (sym (ap (λ r. final r) ran)) raises)
  run_callbacks-raise (b ∷ before) later c w u ran raises =
      let (v, first, rest) = then_ok (run_callback b w) (run_callbacks before) tt u ran in
      rw first (run_callbacks-raise before later c v u rest raises)

  module _ (self db st : Ptr) (w : World) (live : IsLive self db st w)
      (fresh : (w.statements self).done_p ≡ false) where
    abbrev called : Log
    called = step_call st ∷ w.log

    functions_entered :
        (calls : List FunctionCall)
        → lib.callbacks called ≡ map to_callback calls
        → w.errinfo ≡ none
        → let out = run_functions calls none called in
          enter (step_call st) w ≡ ok (lib.status out.0) (with_outcome w out)
    unfolding enter
    functions_entered calls h quiet =
        rw (h, run_callbacks-run_functions calls (record w { log = called }), quiet) refl

    reraised :
        (log : Log) (waiting : Option Exception)
        → enter (step_call st) w ≡ ok (lib.status log) (record w { log = log; errinfo = waiting })
        → step self w
          ≡ raise_or
              (step_result self (w.statements self) st (lib.status log))
              (record w { log = log; errinfo = none })
              waiting
    reraised log none entered =
        quiet_step self db st w live fresh (lib.status log) (with_outcome w (log, none)) entered
          refl
    reraised log (some e) entered =
        step_pending self db st w live fresh (lib.status log) (with_outcome w (log, some e)) entered
          e refl

    -- A step whose statement calls SQL functions that Ruby blocks implement, however many, with no
    -- exception waiting before: each function that raises reports an error to SQLite and does not
    -- unwind it; when sqlite3_step is over the step raises the exception of the last of them, and
    -- clears rb_errinfo. If none raised, it goes on with the result of sqlite3_step.
    pub step-run_functions :
        (calls : List FunctionCall)
        → lib.callbacks called ≡ map to_callback calls
        → w.errinfo ≡ none
        → let (log, waiting) = run_functions calls none called in
          let v = record w { log = log; errinfo = none } in
          step self w
          ≡ raise_or (step_result self (w.statements self) st (lib.status log)) v waiting
    step-run_functions calls h quiet =
        let (log, waiting) = run_functions calls none called in
        reraised log waiting (functions_entered calls h quiet)

    -- Where a comparator, the tracer, the busy handler or the authorizer raises during sqlite3_step,
    -- after callbacks that returned, the exception leaves the step at once, from inside the library:
    -- neither the rest of its callbacks nor the reset nor anything else that the step does comes
    -- after.
    pub step-hook_call :
        (before later : List Callback) (c : Callback) (u : World) (v : Value) (m : Bytes)
        (args : List Value) (e : Exception)
        → lib.callbacks called ≡ before ++ c ∷ later
        → run_callbacks before (record w { log = called }) ≡ ok tt u
        → hook_call u c ≡ some (v, m, args)
        → let log = ruby_call v m args ∷ u.log in
          rb.funcall log ≡ raised e → step self w ≡ raise e (record u { log = log })
    unfolding step enter
    step-hook_call before later c u v m args e h ran hook answer =
        rw
          (
            live_stmt-ok live,
            fresh,
            h,
            run_callbacks-raise before later c (record w { log = called }) u ran
                (hook_raises c v m args e u hook answer),
          )
          refl
