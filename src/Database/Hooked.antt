-- ===== src/Database/Hooked.antt =====
-- Proofs that every method of a connection keeps its hooks callable (ext/sqlite3/database.c).
use sqlite3_ruby.Base.{ℕ, Bool, Option, [], ◌∷◌, List, arith}
use sqlite3_ruby.Values.{Ptr, Bytes, Value}
use sqlite3_ruby.Env.{Sqlite, Ruby, exec_sql, prepare_v2}
use sqlite3_ruby.Machine.{World, Statement, final}
use sqlite3_ruby.Callbacks.{enter}
use sqlite3_ruby.Callbacks.Kept.{kept_then}
use sqlite3_ruby.Callbacks.Keeping.{enter-Kept}
use sqlite3_ruby.Errors.Raise.{rb_sqlite3_raise, rb_sqlite3_raise_msg, rb_sqlite3_raise_with_sql}
use sqlite3_ruby.Statement.Preparing.{with_db}
use sqlite3_ruby.Statement.Prepare.{prepare, prepare_result}
use sqlite3_ruby.Database.Batch.{exec_batch}
use sqlite3_ruby.Database.Hooks.{set_busy_timeout, set_extended_result_codes}
use sqlite3_ruby.Database.Timeout.{set_statement_timeout}
use sqlite3_ruby.Database.Conversion.{define_function_with_flags, collation}
use sqlite3_ruby.Aggregator.Define.{rb_sqlite3_define_aggregator2, declared_arity}
use sqlite3_ruby.Database.Queries.{interrupt, load_extension_internal, enable_load_extension_m}
use sqlite3_ruby.Database.Open.{rb_sqlite3_disable_quirk_mode}
use sqlite3_ruby.Database.Services.{
  Service, use_trace, use_busy_handler, use_authorizer, use_busy_timeout, use_statement_timeout,
  use_extended_codes, use_function, use_aggregator, use_collation, use_interrupt, use_quirk_mode,
  use_load_extension, use_enable_extension, use_exec_batch, use_prepare, serve, batch_final,
}
use sqlite3_ruby.Database.Handlers.{
  HooksAreLive, IsObliging, Kept-HooksAreLive, trace-HooksAreLive, busy_handler-HooksAreLive,
  set_authorizer-HooksAreLive,
}

module _ ⦃lib : Sqlite⦄ ⦃rb : Ruby⦄ (self db : Ptr) (w : World) (h : HooksAreLive self db w) where
  busy_timeout-HooksAreLive : (v : Value) → HooksAreLive self db (final (set_busy_timeout self v w))
  unfolding set_busy_timeout rb_sqlite3_raise
  busy_timeout-HooksAreLive v = ground arith

  statement_timeout-HooksAreLive :
      (v : Value) → HooksAreLive self db (final (set_statement_timeout self v w))
  unfolding set_statement_timeout
  statement_timeout-HooksAreLive v = ground arith

  extended_codes-HooksAreLive :
      (v : Value) → HooksAreLive self db (final (set_extended_result_codes self v w))
  unfolding set_extended_result_codes rb_sqlite3_raise
  extended_codes-HooksAreLive v = ground arith

  function-HooksAreLive :
      (name : Bytes) (flags block : Value)
      → HooksAreLive self db (final (define_function_with_flags self name flags block w))
  unfolding define_function_with_flags rb_sqlite3_raise
  function-HooksAreLive name flags block = ground arith

  aggregator-HooksAreLive :
      (v : Value) (name : Bytes)
      → HooksAreLive self db (final (rb_sqlite3_define_aggregator2 self v name w))
  unfolding rb_sqlite3_define_aggregator2 declared_arity rb_sqlite3_raise
  aggregator-HooksAreLive v name = ground arith

  collation-HooksAreLive :
      (name : Bytes) (v : Value) → HooksAreLive self db (final (collation self name v w))
  unfolding collation rb_sqlite3_raise
  collation-HooksAreLive name v = ground arith

  interrupt-HooksAreLive : HooksAreLive self db (final (interrupt self w))
  unfolding interrupt
  interrupt-HooksAreLive = ground arith

  load_extension-HooksAreLive :
      (file : Bytes) → HooksAreLive self db (final (load_extension_internal self file w))
  unfolding load_extension_internal rb_sqlite3_raise_msg
  load_extension-HooksAreLive file = ground arith

  enable_extension-HooksAreLive :
      (v : Value) → HooksAreLive self db (final (enable_load_extension_m self v w))
  unfolding enable_load_extension_m rb_sqlite3_raise
  enable_extension-HooksAreLive v = ground arith

  quirk_mode-HooksAreLive : HooksAreLive self db (final (rb_sqlite3_disable_quirk_mode self w))
  unfolding rb_sqlite3_disable_quirk_mode
  quirk_mode-HooksAreLive = ground arith

  exec_batch-HooksAreLive :
      (sql : Bytes) (as_hash : Bool) → HooksAreLive self db (final (exec_batch self sql as_hash w))
  exec_batch-HooksAreLive sql as_hash = rw (batch_final self db sql as_hash w h.connected) (
      Kept-HooksAreLive self db (record w { log = exec_sql db sql ∷ w.log }) _
        (enter-Kept (exec_sql db sql) w)
        (record { connected = h.connected; tracer = h.tracer; busy = h.busy; auth = h.auth }))

module _ ⦃lib : Sqlite⦄ ⦃rb : Ruby⦄ (self db : Ptr) where
  result-HooksAreLive :
      (stmt : Ptr) (c : Option Ptr) (sql : Bytes) (ctx : Statement) (st : Option Ptr) (status : ℕ)
      (w : World)
      → HooksAreLive self db w
      → HooksAreLive self db (final (prepare_result stmt self c sql ctx st status w))
  unfolding prepare_result rb_sqlite3_raise_with_sql
  result-HooksAreLive stmt c sql ctx st status w h = ground arith

  prepare-HooksAreLive :
      (stmt : Ptr) (sql : Bytes) (w : World)
      → HooksAreLive self db w
      → HooksAreLive self db (final (prepare stmt self sql w))
  unfolding prepare
  prepare-HooksAreLive stmt sql w h =
      let c = (w.databases self).db in
      let called = prepare_v2 c sql in
      let v = with_db stmt self w in
      let v' = record v { log = called ∷ w.log } in
      let begun : HooksAreLive self db v' = record {
        connected = h.connected;
        tracer = h.tracer;
        busy = h.busy;
        auth = h.auth;
      } in
      let st = lib.handle (called ∷ w.log) in
      kept_then (HooksAreLive self db) (enter called v)
        (prepare_result stmt self c sql (w.statements stmt) st) v' (enter-Kept called v)
        (λ g k. Kept-HooksAreLive self db v' g k begun)
        λ status g k.
          result-HooksAreLive stmt c sql (w.statements stmt) st status g
            (Kept-HooksAreLive self db v' g k begun)

  serve-HooksAreLive :
      (s : Service) (w : World)
      → IsObliging self db
      → HooksAreLive self db w
      → HooksAreLive self db (serve self s w)
  unfolding serve
  serve-HooksAreLive (use_trace arg given) w o h = trace-HooksAreLive self db arg given w h
  serve-HooksAreLive (use_busy_handler arg given) w o h =
      busy_handler-HooksAreLive self db arg given w o h
  serve-HooksAreLive (use_authorizer v) w o h = set_authorizer-HooksAreLive self db v w o h
  serve-HooksAreLive (use_busy_timeout v) w o h = busy_timeout-HooksAreLive self db w h v
  serve-HooksAreLive (use_statement_timeout v) w o h = statement_timeout-HooksAreLive self db w h v
  serve-HooksAreLive (use_extended_codes v) w o h = extended_codes-HooksAreLive self db w h v
  serve-HooksAreLive (use_function name flags block) w o h =
      function-HooksAreLive self db w h name flags block
  serve-HooksAreLive (use_aggregator v name) w o h = aggregator-HooksAreLive self db w h v name
  serve-HooksAreLive (use_collation name v) w o h = collation-HooksAreLive self db w h name v
  serve-HooksAreLive use_interrupt w o h = interrupt-HooksAreLive self db w h
  serve-HooksAreLive use_quirk_mode w o h = quirk_mode-HooksAreLive self db w h
  serve-HooksAreLive (use_load_extension file) w o h = load_extension-HooksAreLive self db w h file
  serve-HooksAreLive (use_enable_extension v) w o h = enable_extension-HooksAreLive self db w h v
  serve-HooksAreLive (use_exec_batch sql as_hash) w o h =
      exec_batch-HooksAreLive self db w h sql as_hash
  serve-HooksAreLive (use_prepare stmt sql) w o h = prepare-HooksAreLive stmt sql w h

  -- The methods one after the other, each of which may return or raise.
  unfoldable pub serve_all : List Service → World → World
  serve_all [] w = w
  serve_all (s ∷ ss) w = serve_all ss (serve self s w)

  -- On an open connection, where the library gives its result codes and a removal of the busy handler
  -- succeeds: if each of the three hooks that the library calls had a Ruby object, this is so after any
  -- sequence of methods, whether they return or raise, with the callbacks that they make: the
  -- connection is the same, and a tracer, a busy handler or an authorizer is installed only if it is
  -- not nil.
  pub serve_all-HooksAreLive :
      (ss : List Service) (w : World)
      → IsObliging self db
      → HooksAreLive self db w
      → HooksAreLive self db (serve_all ss w)
  unfolding serve_all
  serve_all-HooksAreLive [] w o h = h
  serve_all-HooksAreLive (s ∷ ss) w o h =
      serve_all-HooksAreLive ss (serve self s w) o (serve-HooksAreLive s w o h)
