-- ===== src/Gem/Execution.antt =====
-- lib/sqlite3/statement.rb: active?, execute, execute! and each. The block of execute is not given.
use sqlite3_ruby.Base.{ℕ, zero, suc, Bool, true, false, Option, ◌||◌, not, pos, ◌==◌, if◌then◌else◌}
use sqlite3_ruby.Values.{Ptr, Value, rtest, fixnum, Class, other_class}
use sqlite3_ruby.Env.{Sqlite, Ruby}
use sqlite3_ruby.Machine.{M, Run, ok, raise, fault, out_of_fuel, pure, ◌>>=◌, ◌>>◌, when}
use sqlite3_ruby.Statement.Prepare.{done_p, reset_bang}
use sqlite3_ruby.Statement.Step.{step}
use sqlite3_ruby.Statement.Columns.{column_count}
use sqlite3_ruby.Statement.Bind.{Pack}
use sqlite3_ruby.Statement.Each.{Row}
use sqlite3_ruby.Gem.Binding.{Variables, nil, cons, bind_params}

-- `!done?`
unfoldable pub is_active : Ptr → M Bool
is_active self = do done ← done_p self; pure (not (rtest done))

abbrev pub is_empty : Variables → Bool
is_empty nil = true
is_empty (cons v vs) = false

abbrev pub is_zero : Value → Bool
is_zero (fixnum (pos n)) = n == 0
is_zero _ = false

-- How `loop do` ends without an exception: by the break, with the values that the block kept, or by a
-- StopIteration that was raised within it.
pub data LoopEnd (S : Type 0) : Type 0 where
  broken : S → LoopEnd S
  stopped : LoopEnd S

-- Whether Kernel#loop rescues the exception: the classes that the extension names are no
-- StopIterations.
abbrev stops_class : ⦃rb : Ruby⦄ → Class → Bool
stops_class ⦃rb⦄ (other_class n) = rb.is_stop_iteration n
stops_class _ = false

abbrev pub rescue_stop : ⦃rb : Ruby⦄ → {S : Type 0} → Run S → Run (LoopEnd S)
rescue_stop (ok s g) = ok (broken s) g
rescue_stop (raise e g) = if stops_class e.class_of then ok stopped g else raise e g
rescue_stop (fault g) = fault g
rescue_stop (out_of_fuel g) = out_of_fuel g

module _ ⦃lib : Sqlite⦄ ⦃rb : Ruby⦄ where
  unfoldable pub execute : Pack → Ptr → Variables → M (Unit {0})
  execute pack self bind_vars = do
    active ← is_active self
    done ← done_p self
    when (active || rtest done) (do self' ← reset_bang self; pure tt)
    when (not (is_empty bind_vars)) (bind_params pack self bind_vars)
    count ← column_count self
    when (is_zero count) (do row ← step self; pure tt)

  -- The rest of one round: `break self if done?`, and otherwise the block and the next rounds.
  abbrev pub step_taken : {S : Type 0} → Ptr → M S → (S → M S) → S → M S
  step_taken self yielded again s = do
    done ← done_p self
    if rtest done then pure s else (yielded >>= again)

  -- The rounds of the loop, at most `fuel`; the block gets the values that it keeps, `s`, and the answer
  -- of the step, and returns the values that it keeps then.
  unfoldable pub each_rounds : {S : Type 0} → ℕ → (S → Option Row → M S) → Ptr → S → M S
  each_rounds zero block self s w = out_of_fuel w
  each_rounds (suc fuel) block self s w =
      (step self >>= λ val. step_taken self (block s val) (each_rounds fuel block self) s) w

  -- `loop do`, with the rescue of Kernel#loop.
  unfoldable pub each_step : {S : Type 0} → ℕ → (S → Option Row → M S) → Ptr → S → M (LoopEnd S)
  each_step fuel block self s w = rescue_stop (each_rounds fuel block self s w)

  -- execute! with a block.
  unfoldable pub execute_bang :
      {S : Type 0} → ℕ → Pack → (S → Option Row → M S) → Ptr → Variables → S → M (LoopEnd S)
  execute_bang fuel pack block self bind_vars s = do
    execute pack self bind_vars
    each_step fuel block self s
