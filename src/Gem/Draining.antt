-- ===== src/Gem/Draining.antt =====
-- Proofs that execute_batch ends (lib/sqlite3/database.rb).
use sqlite3_ruby.Base.{
  ℕ, zero, suc, ◌<◌, ◌≡◌, Bool, true, false, Option, none, List, [], ◌∷◌, length, is_some, arith,
  ap, ◌∙◌, sym, ==_refl, Bool-cases, inl, inr, pos,
}
use mathlib.Core.Path.{subst}
use sqlite3_ruby.Values.{
  Ptr, Bytes, Value, string, qnil, qtrue, qfalse, fixnum, bignum, float, symbol, object,
}
use sqlite3_ruby.Env.{Sqlite, Ruby}
use sqlite3_ruby.Machine.{
  World, Run, M, Settles, Returns, ok, raise, fault, out_of_fuel, final, when, pure, ◌>>=◌,
}
use sqlite3_ruby.Errors.Raise.{rb_sqlite3_raise}
use sqlite3_ruby.Outcome.{Settles-with, Returns-then, forget, bind-Settles}
use sqlite3_ruby.Statement.Guards.{live_stmt}
use sqlite3_ruby.Statement.Prepare.{closed_p, sqlite3_rb_close}
use sqlite3_ruby.Statement.Bind.{Pack, bind_param}
use sqlite3_ruby.Statement.Columns.{bind_parameter_count}
use sqlite3_ruby.Statement.Each.{Row}
use sqlite3_ruby.Statement.Step.{step}
use sqlite3_ruby.Statement.Invariant.{IsSteady, step_keeps}
use sqlite3_ruby.Statement.Settling.{IsPrepared, live_stmt-Settles, step-Settles, close-Settles}
use sqlite3_ruby.Gem.Binding.{Flat, value, hash, flatten, bind_pairs, bind_flat, bind_params}
use sqlite3_ruby.Gem.Executing.{SameStructs, bind_param-SameStructs, bind_params-SameStructs}
use sqlite3_ruby.Gem.Connection.{
  sql_string, new_statement, prepare_yielding, ensured, close_unless_closed,
}
use sqlite3_ruby.Gem.Batch.{
  strip, strip_value, same_length, BatchVars, given, batch_step, batch_block, batch_loop,
  execute_batch,
}
use sqlite3_ruby.Gem.Batching.{Advances, IsTail, Left, new_statement-Left, length-strip}

module _ ⦃lib : Sqlite⦄ ⦃rb : Ruby⦄ (pack : Pack) (self : Ptr) where
  bind_param-Settles :
      (key val : Value) (w : World) → IsPrepared self w → Settles (bind_param pack self key val w)
  unfolding bind_param rb_sqlite3_raise
  bind_param-Settles key val w prepared =
      bind-Settles (live_stmt self w) _ (live_stmt-Settles self w prepared) λ st v. ground arith

  bind_param-IsPrepared :
      (key val : Value) (w : World)
      → IsPrepared self w
      → Returns (λ _ g. IsPrepared self g) (bind_param pack self key val w)
  bind_param-IsPrepared key val w prepared =
      Settles-with (IsPrepared self) (bind_param pack self key val w)
        (bind_param-Settles key val w prepared)
        (ap (λ f. is_some (f self).db) (bind_param-SameStructs pack self key val w).statements
          ∙ prepared)

  bind_pairs-IsPrepared :
      (h : List (Value × Value)) (w : World)
      → IsPrepared self w
      → Returns (λ _ g. IsPrepared self g) (bind_pairs pack self h w)
  unfolding bind_pairs
  bind_pairs-IsPrepared [] w prepared = prepared
  bind_pairs-IsPrepared ((key, val) ∷ rest) w prepared =
      Returns-then (λ _ g. IsPrepared self g) _ (bind_param pack self key val w) _
        (bind_param-IsPrepared key val w prepared) λ _ v p. bind_pairs-IsPrepared rest v p

  bind_flat-IsPrepared :
      (i : ℕ) (vs : List Flat) (w : World)
      → IsPrepared self w
      → Returns (λ _ g. IsPrepared self g) (bind_flat pack self i vs w)
  unfolding bind_flat
  bind_flat-IsPrepared i [] w prepared = prepared
  bind_flat-IsPrepared i (value v ∷ rest) w prepared =
      Returns-then (λ _ g. IsPrepared self g) _ (bind_param pack self (fixnum (pos i)) v w) _
        (bind_param-IsPrepared _ v w prepared) λ _ u p. bind_flat-IsPrepared (suc i) rest u p
  bind_flat-IsPrepared i (hash h ∷ rest) w prepared =
      Returns-then (λ _ g. IsPrepared self g) _ (bind_pairs pack self h w) _
        (bind_pairs-IsPrepared h w prepared) λ _ u p. bind_flat-IsPrepared i rest u p

module _ ⦃lib : Sqlite⦄ ⦃rb : Ruby⦄ (pack : Pack) (vars : BatchVars) (n : ℕ) (stmt : Ptr) where
  abbrev Stays : {A : Type 0} → Run A → Type 0
  Stays = Returns (λ _ g. Left n stmt g)

  Left-SameStructs : {w g : World} → SameStructs w g → Left n stmt w → Left n stmt g
  Left-SameStructs same left = record {
    prepared = ap (λ f. is_some (f stmt).db) same.statements ∙ left.prepared;
    tail = rw (ap (λ f. f stmt) same.remainders) left.tail;
  }

  Left-IsSteady : IsSteady (Left n stmt) stmt
  Left-IsSteady = record {
    steps = λ st w h p. record { prepared = p.prepared; tail = p.tail };
    resets = λ st w h p. record { prepared = p.prepared; tail = p.tail };
    keeps = λ w g k p. record {
      prepared = ap (λ f. is_some (f stmt).db) k.statements ∙ p.prepared;
      tail = rw (ap (λ f. f stmt) k.remainders) p.tail;
    };
    quiets = λ w p. record { prepared = p.prepared; tail = p.tail };
    marks = λ d w p. record { prepared = rw (==_refl stmt) p.prepared; tail = p.tail };
  }

  binding-Stays :
      (b : Bool) (w : World) → Left n stmt w → Stays (when b (bind_params pack stmt (given vars)) w)
  unfolding bind_params
  binding-Stays false w left = left
  binding-Stays true w left =
      Settles-with (Left n stmt) (bind_params pack stmt (given vars) w)
        (forget (IsPrepared stmt) _
          (bind_flat-IsPrepared pack stmt 1 (flatten (given vars)) w left.prepared))
        (Left-SameStructs (bind_params-SameStructs pack stmt (given vars) w) left)

  counting_pure : (w : World) → final (bind_parameter_count stmt w) ≡ w
  unfolding bind_parameter_count live_stmt
  counting_pure w = ground arith

  counting-Stays : (w : World) → Left n stmt w → Stays (bind_parameter_count stmt w)
  unfolding bind_parameter_count
  counting-Stays w left =
      Settles-with (Left n stmt) (bind_parameter_count stmt w)
        (bind-Settles (live_stmt stmt w) _ (live_stmt-Settles stmt w left.prepared) λ _ v. tt)
        (subst (λ g. Left n stmt g) (sym (counting_pure w)) left)

  batch_step-Stays :
      (db : Ptr) (result : Option Row) (w : World)
      → Left n stmt w
      → Stays (batch_step pack db vars result stmt w)
  unfolding batch_step closed_p
  batch_step-Stays db result w left = elim (Bool-cases (is_some (w.statements stmt).st)) [
    | inl open_one ↦ rw open_one (
        Returns-then (λ _ g. Left n stmt g) _ (bind_parameter_count stmt w) _
          (counting-Stays w left)
          λ count v p.
            Returns-then (λ _ g. Left n stmt g) _
              (when (same_length vars count) (bind_params pack stmt (given vars)) v) _
              (binding-Stays (same_length vars count) v p)
              λ _ u q.
                Settles-with (Left n stmt) (step stmt u) (step-Settles stmt u q.prepared)
                  (step_keeps (Left n stmt) stmt Left-IsSteady u q))
    | inr closed ↦ rw closed left
  ]

  stripped :
      (v : Value) (result : Option Row) (w : World)
      → IsTail n v
      → Returns
          (λ (out : Bytes × Option Row) _. length out.0 < n)
          ((strip_value v >>= λ sql. pure (sql, result)) w)
  stripped (string s) result w h = omega (arith, length-strip s.bytes)
  stripped qnil result w h = absurd h
  stripped qtrue result w h = absurd h
  stripped qfalse result w h = absurd h
  stripped (fixnum n) result w h = absurd h
  stripped (bignum n) result w h = absurd h
  stripped (float n) result w h = absurd h
  stripped (symbol s) result w h = absurd h
  stripped (object p) result w h = absurd h

  pub batch_block_shortens :
      (db : Ptr) (result : Option Row) (w : World)
      → Left n stmt w
      → Returns (λ out _. length out.0 < n) (batch_block pack db vars result stmt w)
  unfolding batch_block
  batch_block_shortens db result w left =
      Returns-then (λ _ g. Left n stmt g) _ (batch_step pack db vars result stmt w) _
        (batch_step-Stays db result w left)
        λ result' v p. stripped (v.remainders stmt) result' v p.tail

-- What holds of the value of the block, whatever the state, after the cleanup.
ensured-Returns :
    {A : Type 0} (P : A → Type 0) (r : Run A) (cleanup : M (Unit {0}))
    → Returns (λ a _. P a) r
    → ((v : World) → Settles (cleanup v))
    → Returns (λ a _. P a) (ensured r cleanup)
ensured-Returns P (ok a v) cleanup h clean =
    Returns-then (λ _ _. Unit {0}) (λ a _. P a) (cleanup v) (λ _. ok a) (clean v) λ _ _ _. h
ensured-Returns P (raise e v) cleanup h clean =
    Returns-then (λ _ _. Unit {0}) (λ a _. P a) (cleanup v) (λ _. raise e) (clean v) λ _ _ _. tt
ensured-Returns P (fault v) cleanup h clean = h
ensured-Returns P (out_of_fuel v) cleanup h clean = h

module _ ⦃lib : Sqlite⦄ ⦃rb : Ruby⦄ (advances : Advances) (pack : Pack) (db : Ptr)
    (vars : BatchVars) where
  cleanup-Settles : (stmt : Ptr) (w : World) → Settles (close_unless_closed stmt w)
  unfolding close_unless_closed closed_p
  cleanup-Settles stmt w = elim (Bool-cases (is_some (w.statements stmt).st)) [
    | inl open_one ↦
        rw open_one (bind-Settles (sqlite3_rb_close stmt w) _ (close-Settles stmt w) λ _ v. tt)
    | inr closed ↦ rw closed tt
  ]

  round_shortens :
      (sql : Bytes) (result : Option Row) (w : World)
      → 0 < length sql
      → Returns
          (λ out _. length out.0 < length sql)
          (prepare_yielding db (sql_string sql) (batch_block pack db vars result) w)
  unfolding prepare_yielding
  round_shortens sql result w nonempty =
      Returns-then (λ stmt g. Left (length sql) stmt g) _ (new_statement db (sql_string sql) w) _
        (new_statement-Left advances db sql w nonempty)
        λ stmt v p.
          ensured-Returns (λ (out : Bytes × Option Row). length out.0 < length sql)
            (batch_block pack db vars result stmt v) (close_unless_closed stmt)
            (batch_block_shortens pack vars (length sql) stmt db result v p) (cleanup-Settles stmt)

  loop-Settles :
      (fuel : ℕ) (sql : Bytes) (result : Option Row) (w : World)
      → length sql < fuel
      → Settles (batch_loop pack db vars fuel sql result w)
  unfolding batch_loop
  loop-Settles zero sql result w h = absurd (omega arith)
  loop-Settles (suc fuel) [] result w h = tt
  loop-Settles (suc fuel) (c ∷ s) result w h =
      Returns-then (λ (out : Bytes × Option Row) _. length out.0 < length (c ∷ s)) _
        (prepare_yielding db (sql_string (c ∷ s)) (batch_block pack db vars result) w) _
        (round_shortens (c ∷ s) result w (omega arith))
        λ out v p. loop-Settles fuel out.0 out.1 v (omega arith)

  -- execute_batch ends. Where sqlite3_prepare_v2, when it succeeds with a text that is not empty, leaves a
  -- tail that is shorter: with more rounds than the text has bytes, execute_batch returns or raises, in
  -- every state, whatever the text, the variables and the callbacks are.
  pub execute_batch-Settles :
      (fuel : ℕ) (sql : Bytes) (w : World)
      → length sql < fuel
      → Settles (execute_batch pack db vars fuel sql w)
  unfolding execute_batch
  execute_batch-Settles fuel sql w h =
      loop-Settles fuel (strip sql) none w (omega (arith, length-strip sql))
