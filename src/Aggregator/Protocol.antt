-- ===== src/Aggregator/Protocol.antt =====
-- What an aggregate promises to its handler class: which Ruby calls are made and what SQLite is
-- told, written as a plain loop over the rows, without contexts, instances or states
-- (ext/sqlite3/aggregator.c, and the example in lib/sqlite3/database.rb).
use sqlite3_ruby.Base.{Option, none, some, List, [], ◌∷◌}
use sqlite3_ruby.Values.{Ptr, Value, Answer, returned, raised}
use sqlite3_ruby.Env.{SqlValue, Ruby, Log, Datum, ruby_call, result_call, result_error}
use sqlite3_ruby.Database.Conversion.{params2rb, func_result}
use sqlite3_ruby.Aggregator.Callbacks.{new_method, step_method, finalize_method}

abbrev pub returned_or_empty : Answer (List Value) → List Value
returned_or_empty (returned vs) = vs
returned_or_empty (raised e) = []

-- The result that SQLite is told: nothing for a value that it has no type for.
abbrev pub told : Ptr → Option Datum → Log → Log
told ctx none log = log
told ctx (some d) log = result_call ctx d ∷ log

module _ ⦃rb : Ruby⦄ (ctx : Ptr) where
  abbrev pub told_answer : Answer Value → Log → Log
  told_answer (returned v) log = told ctx (func_result v) log
  told_answer (raised e) log = result_error ctx ∷ log

  abbrev pub finished : Value → Log → Log
  finished handler log =
      let called = ruby_call handler finalize_method [] ∷ log in
      told_answer (rb.funcall called) called

  -- One `step` for each row up to the first that raises, then `finalize` if none did, then the result.
  unfoldable pub protocol_steps : Value → List (List SqlValue) → Log → Log
  protocol_steps handler [] log = finished handler log
  protocol_steps handler (argv ∷ rows) log =
      let called = ruby_call handler step_method (returned_or_empty (params2rb argv)) ∷ log in
      elim (rb.funcall called) [
        | returned v ↦ protocol_steps handler rows called
        | raised e ↦ result_error ctx ∷ called
      ]

  abbrev pub after_new : List (List SqlValue) → Answer Value → Log → Log
  after_new rows (returned handler) log = protocol_steps handler rows log
  after_new rows (raised e) log = result_error ctx ∷ log

  -- A whole execution: a new handler, then its rows.
  unfoldable pub protocol : Value → List (List SqlValue) → Log → Log
  unfolding protocol_steps
  protocol klass rows log =
      let called = ruby_call klass new_method [] ∷ log in after_new rows (rb.funcall called) called
