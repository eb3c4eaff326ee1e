-- ===== src/Database/Services.antt =====
-- The methods of a Database that make calls with its connection (ext/sqlite3/database.c).
use sqlite3_ruby.Base.{◌≡◌, refl, Bool, Option, some, arith, sym, Option-cases, inl, inr, ◌∙◌}
use sqlite3_ruby.Values.{Ptr, Bytes, Value}
use sqlite3_ruby.Env.{Sqlite, Ruby, exec_sql}
use sqlite3_ruby.Machine.{World, M, Run, ok, raise, fault, out_of_fuel, and_then, final}
use sqlite3_ruby.Callbacks.{enter}
use sqlite3_ruby.Callbacks.Keeping.{enter-Kept}
use sqlite3_ruby.Errors.Raise.{rb_sqlite3_raise_msg}
use sqlite3_ruby.Database.Hooks.{
  trace, busy_handler, set_authorizer, set_busy_timeout, set_extended_result_codes,
}
use sqlite3_ruby.Database.Timeout.{set_statement_timeout}
use sqlite3_ruby.Database.Conversion.{define_function_with_flags, collation}
use sqlite3_ruby.Aggregator.Define.{rb_sqlite3_define_aggregator2}
use sqlite3_ruby.Database.Queries.{interrupt, load_extension_internal, enable_load_extension_m}
use sqlite3_ruby.Database.Open.{rb_sqlite3_disable_quirk_mode}
use sqlite3_ruby.Database.Batch.{exec_batch}
use sqlite3_ruby.Statement.Prepare.{prepare}
use sqlite3_ruby.Database.Calling.{prepare-Served, called-Served}
use sqlite3_ruby.Database.Serving.{
  Served, trace-Served, busy_handler-Served, set_authorizer-Served, set_busy_timeout-Served,
  set_statement_timeout-Served, set_extended_result_codes-Served, define_function_with_flags-Served,
  rb_sqlite3_define_aggregator2-Served, collation-Served, interrupt-Served,
  load_extension_internal-Served, enable_load_extension_m-Served,
  rb_sqlite3_disable_quirk_mode-Served,
}
use sqlite3_ruby.Database.Attaching.{raise_pure}
use mathlib.Core.Path.{subst}

-- The methods of an object that make calls with its connection, and the prepare of a statement.
pub data Service : Type 0 where
  use_trace use_busy_handler : Option Value → Option Value → Service
  use_authorizer use_busy_timeout use_statement_timeout use_extended_codes : Value → Service
  use_function : Bytes → Value → Value → Service
  use_aggregator : Value → Bytes → Service
  use_collation : Bytes → Value → Service
  use_interrupt use_quirk_mode : Service
  use_load_extension : Bytes → Service
  use_enable_extension : Value → Service
  use_exec_batch : Bytes → Bool → Service
  use_prepare : Ptr → Bytes → Service

pub batch_rest :
    {A B : Type 0} (m : Run A) (k : A → M B)
    → ((a : A) (v : World) → final (k a v) ≡ v)
    → final (and_then m k) ≡ final m
batch_rest (ok a v) k h = h a v
batch_rest (raise x v) k h = refl
batch_rest (fault v) k h = refl
batch_rest (out_of_fuel v) k h = refl

module _ ⦃lib : Sqlite⦄ ⦃rb : Ruby⦄ (self : Ptr) where
  -- The state after the method, whether it returned or not.
  unfoldable pub serve : Service → World → World
  serve (use_trace arg given) w = final (trace self arg given w)
  serve (use_busy_handler arg given) w = final (busy_handler self arg given w)
  serve (use_authorizer v) w = final (set_authorizer self v w)
  serve (use_busy_timeout v) w = final (set_busy_timeout self v w)
  serve (use_statement_timeout v) w = final (set_statement_timeout self v w)
  serve (use_extended_codes v) w = final (set_extended_result_codes self v w)
  serve (use_function name flags block) w =
      final (define_function_with_flags self name flags block w)
  serve (use_aggregator v name) w = final (rb_sqlite3_define_aggregator2 self v name w)
  serve (use_collation name v) w = final (collation self name v w)
  serve use_interrupt w = final (interrupt self w)
  serve use_quirk_mode w = final (rb_sqlite3_disable_quirk_mode self w)
  serve (use_load_extension file) w = final (load_extension_internal self file w)
  serve (use_enable_extension v) w = final (enable_load_extension_m self v w)
  serve (use_exec_batch sql as_hash) w = final (exec_batch self sql as_hash w)
  serve (use_prepare stmt sql) w = final (prepare stmt self sql w)

  -- exec_batch ends in the state in which sqlite3_exec and its callbacks end.
  pub batch_final :
      (db : Ptr) (sql : Bytes) (as_hash : Bool) (w : World)
      → (w.databases self).db ≡ some db
      → final (exec_batch self sql as_hash w) ≡ final (enter (exec_sql db sql) w)
  unfolding exec_batch
  batch_final db sql as_hash w e = rw e (
      batch_rest (enter (exec_sql db sql) w) _ λ status v.
        batch_rest (rb_sqlite3_raise_msg status (lib.err_msg_out v.log) v) _ (λ _ u. refl)
        ∙ raise_pure status (lib.err_msg_out v.log) v)

  exec_batch-Served :
      (sql : Bytes) (as_hash : Bool) (w : World)
      → Served self w (final (exec_batch self sql as_hash w))
  unfolding exec_batch
  exec_batch-Served sql as_hash w = elim (Option-cases (w.databases self).db) [
    | inl e ↦ rw e (record { same = λ q. refl; opens = λ c. refl; served = λ h k. k })
    | inr (db, e) ↦
        let k = enter-Kept (exec_sql db sql) w in
        subst (Served self w) (sym (batch_final db sql as_hash w e))
          (called-Served self (exec_sql db sql) w _ (λ p. refl) (ground (arith, e)) k)
  ]

  pub serve-Served : (s : Service) (w : World) → Served self w (serve s w)
  unfolding serve
  serve-Served (use_trace arg given) w = trace-Served self arg given w
  serve-Served (use_busy_handler arg given) w = busy_handler-Served self arg given w
  serve-Served (use_authorizer v) w = set_authorizer-Served self v w
  serve-Served (use_busy_timeout v) w = set_busy_timeout-Served self v w
  serve-Served (use_statement_timeout v) w = set_statement_timeout-Served self v w
  serve-Served (use_extended_codes v) w = set_extended_result_codes-Served self v w
  serve-Served (use_function name flags block) w =
      define_function_with_flags-Served self name flags block w
  serve-Served (use_aggregator v name) w = rb_sqlite3_define_aggregator2-Served self v name w
  serve-Served (use_collation name v) w = collation-Served self name v w
  serve-Served use_interrupt w = interrupt-Served self w
  serve-Served use_quirk_mode w = rb_sqlite3_disable_quirk_mode-Served self w
  serve-Served (use_load_extension file) w = load_extension_internal-Served self file w
  serve-Served (use_enable_extension v) w = enable_load_extension_m-Served self v w
  serve-Served (use_exec_batch sql as_hash) w = exec_batch-Served sql as_hash w
  serve-Served (use_prepare stmt sql) w = prepare-Served self stmt sql w
