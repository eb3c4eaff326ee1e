-- ===== src/Database/Handlers.antt =====
-- Proofs about the hooks of ext/sqlite3/database.c: where the library calls one, there is a Ruby object
-- to call.
use sqlite3_ruby.Base.{◌≡◌, false, Bool, not, Option, some, ◌∷◌, arith, if◌then◌else◌, ap, ◌∙◌}
use sqlite3_ruby.Values.{Ptr, Value, nil_p}
use sqlite3_ruby.Env.{Sqlite, Log, busy_hook, authorizer_hook}
use sqlite3_ruby.Machine.{World, final}
use sqlite3_ruby.Logs.{trace_installed, busy_installed, auth_installed}
use sqlite3_ruby.Callbacks.Kept.{Kept}
use sqlite3_ruby.Database.Hooks.{trace, busy_handler, set_authorizer}
use sqlite3_ruby.Errors.Raise.{rb_sqlite3_raise}
use sqlite3_ruby.Errors.Classes.{status2klass, IsResultCode}

-- If the hook is installed, the object is not nil.
abbrev pub IsCallable : Bool → Value → Type 0
IsCallable installed v = (if installed then nil_p v else false) ≡ false

module _ ⦃lib : Sqlite⦄ (self db : Ptr) where
  -- Where the library calls the tracer, the busy handler or the authorizer of an open connection, there
  -- is one.
  pub record HooksAreLive (w : World) : Type 0 where
    pub connected : (w.databases self).db ≡ some db
    pub tracer : IsCallable (trace_installed db w.log) (w.databases self).trace_handler
    pub busy : IsCallable (busy_installed db w.log) (w.databases self).busy_handler
    pub auth : IsCallable (auth_installed db w.log) (w.databases self).authorizer

  -- sqlite3_busy_handler(db, NULL, ...) succeeds, and the results of the library are its result codes.
  pub record IsObliging : Type 0 where
    pub removes : (log : Log) → lib.status (busy_hook db false ∷ log) ≡ 0
    pub codes : (log : Log) → IsResultCode (lib.status log)

  pub Kept-HooksAreLive : (w g : World) → Kept w g → HooksAreLive w → HooksAreLive g
  Kept-HooksAreLive w g k h =
      let same = λ (q : Ptr). k.connections q in
      record {
        connected = ap (λ d. d.db) (same self) ∙ h.connected;
        tracer = rw (k.traces db, ap (λ d. d.trace_handler) (same self)) h.tracer;
        busy = rw (k.busies db, ap (λ d. d.busy_handler) (same self)) h.busy;
        auth = rw (k.auths db, ap (λ d. d.authorizer) (same self)) h.auth;
      }

  pub trace-HooksAreLive :
      (arg given : Option Value) (w : World)
      → HooksAreLive w
      → HooksAreLive (final (trace self arg given w))
  unfolding trace
  trace-HooksAreLive arg given w h = ground arith

  pub busy_handler-HooksAreLive :
      (arg given : Option Value) (w : World)
      → IsObliging
      → HooksAreLive w
      → HooksAreLive (final (busy_handler self arg given w))
  unfolding busy_handler rb_sqlite3_raise
  busy_handler-HooksAreLive arg given w lib_ok h = ground (arith, lib_ok.removes w.log)

  pub set_authorizer-HooksAreLive :
      (authorizer : Value) (w : World)
      → IsObliging
      → HooksAreLive w
      → HooksAreLive (final (set_authorizer self authorizer w))
  unfolding set_authorizer rb_sqlite3_raise status2klass
  set_authorizer-HooksAreLive authorizer w lib_ok h =
      ground (arith, lib_ok.codes (authorizer_hook db (not (nil_p authorizer)) ∷ w.log))
