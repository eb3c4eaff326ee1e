-- ===== src/Database/Serving.antt =====
-- Proofs that the methods of a Database use its connection only while it is open
-- (ext/sqlite3/database.c, and prepare of statement.c).
use sqlite3_ruby.Base.{◌≡◌, true, Option, arith}
use sqlite3_ruby.Values.{Ptr, Bytes, Value}
use sqlite3_ruby.Env.{Sqlite, Ruby}
use sqlite3_ruby.Machine.{World, final}
use sqlite3_ruby.Logs.{is_open, open_slot, is_proper}
use sqlite3_ruby.Errors.Raise.{rb_sqlite3_raise, rb_sqlite3_raise_msg}
use sqlite3_ruby.Database.Hooks.{
  trace, busy_handler, set_authorizer, set_busy_timeout, set_extended_result_codes,
}
use sqlite3_ruby.Database.Timeout.{set_statement_timeout}
use sqlite3_ruby.Database.Conversion.{define_function_with_flags, collation}
use sqlite3_ruby.Aggregator.Define.{rb_sqlite3_define_aggregator2, declared_arity}
use sqlite3_ruby.Database.Queries.{interrupt, load_extension_internal, enable_load_extension_m}
use sqlite3_ruby.Database.Open.{rb_sqlite3_disable_quirk_mode}

-- What such a method leaves: the connections of all objects, which connections are open, and a log
-- whose calls were made with open connections, if the object's connection is open.
pub record Served ⦃lib : Sqlite⦄ (self : Ptr) (w g : World) : Type 0 where
  pub same : (q : Ptr) → (g.databases q).db ≡ (w.databases q).db
  pub opens : (c : Ptr) → is_open c g.log ≡ is_open c w.log
  pub served :
      open_slot (w.databases self).db w.log ≡ true → is_proper w.log ≡ true → is_proper g.log ≡ true

module _ ⦃lib : Sqlite⦄ ⦃rb : Ruby⦄ (self : Ptr) where
  pub trace-Served :
      (arg given : Option Value) (w : World) → Served self w (final (trace self arg given w))
  unfolding trace
  trace-Served arg given w = grind arith

  pub busy_handler-Served :
      (arg given : Option Value) (w : World) → Served self w (final (busy_handler self arg given w))
  unfolding busy_handler rb_sqlite3_raise
  busy_handler-Served arg given w = grind arith

  pub set_authorizer-Served :
      (v : Value) (w : World) → Served self w (final (set_authorizer self v w))
  unfolding set_authorizer rb_sqlite3_raise
  set_authorizer-Served v w = grind arith

  pub set_busy_timeout-Served :
      (v : Value) (w : World) → Served self w (final (set_busy_timeout self v w))
  unfolding set_busy_timeout rb_sqlite3_raise
  set_busy_timeout-Served v w = grind arith

  pub set_statement_timeout-Served :
      (v : Value) (w : World) → Served self w (final (set_statement_timeout self v w))
  unfolding set_statement_timeout
  set_statement_timeout-Served v w = grind arith

  pub set_extended_result_codes-Served :
      (v : Value) (w : World) → Served self w (final (set_extended_result_codes self v w))
  unfolding set_extended_result_codes rb_sqlite3_raise
  set_extended_result_codes-Served v w = grind arith

  pub define_function_with_flags-Served :
      (name : Bytes) (flags block : Value) (w : World)
      → Served self w (final (define_function_with_flags self name flags block w))
  unfolding define_function_with_flags rb_sqlite3_raise
  define_function_with_flags-Served name flags block w = grind arith

  pub rb_sqlite3_define_aggregator2-Served :
      (v : Value) (name : Bytes) (w : World)
      → Served self w (final (rb_sqlite3_define_aggregator2 self v name w))
  unfolding rb_sqlite3_define_aggregator2 declared_arity rb_sqlite3_raise
  rb_sqlite3_define_aggregator2-Served v name w = grind arith

  pub collation-Served :
      (name : Bytes) (v : Value) (w : World) → Served self w (final (collation self name v w))
  unfolding collation rb_sqlite3_raise
  collation-Served name v w = grind arith

  pub interrupt-Served : (w : World) → Served self w (final (interrupt self w))
  unfolding interrupt
  interrupt-Served w = grind arith

  pub load_extension_internal-Served :
      (file : Bytes) (w : World) → Served self w (final (load_extension_internal self file w))
  unfolding load_extension_internal rb_sqlite3_raise_msg
  load_extension_internal-Served file w = grind arith

  pub enable_load_extension_m-Served :
      (v : Value) (w : World) → Served self w (final (enable_load_extension_m self v w))
  unfolding enable_load_extension_m rb_sqlite3_raise
  enable_load_extension_m-Served v w = grind arith

  pub rb_sqlite3_disable_quirk_mode-Served :
      (w : World) → Served self w (final (rb_sqlite3_disable_quirk_mode self w))
  unfolding rb_sqlite3_disable_quirk_mode
  rb_sqlite3_disable_quirk_mode-Served w = grind arith
