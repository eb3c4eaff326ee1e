-- ===== src/Gem/Batch.antt =====
-- lib/sqlite3/database.rb: execute_batch, of a text in UTF-8.
use sqlite3_ruby.Base.{
  ℕ, zero, suc, Bool, false, ◌||◌, ◌&&◌, Option, none, List, length, [], ◌∷◌, ◌==◌, leb,
  if◌then◌else◌, pos,
}
use sqlite3_ruby.Values.{Ptr, Bytes, Value, string, fixnum, rtest, Class, other_class}
use sqlite3_ruby.Env.{Sqlite, Ruby}
use sqlite3_ruby.Machine.{M, out_of_fuel, pure, ◌>>=◌, ◌>>◌, when, rb_raise}
use sqlite3_ruby.Statement.Prepare.{closed_p}
use sqlite3_ruby.Statement.Step.{step}
use sqlite3_ruby.Statement.Bind.{Pack}
use sqlite3_ruby.Statement.Columns.{bind_parameter_count}
use sqlite3_ruby.Statement.Each.{Row}
use sqlite3_ruby.Gem.Binding.{Variables, pairs, nil, cons, bind_params}
use sqlite3_ruby.Gem.Metadata.{remainder}
use sqlite3_ruby.Gem.Connection.{sql_string, prepare_yielding}

-- String#strip: the whitespace of Ruby is NUL, tab, line feed, vertical tab, form feed, carriage return
-- and space.
abbrev pub is_whitespace : ℕ → Bool
is_whitespace c = (c == 0) || ((leb 9 c && leb c 13) || (c == 32))

unfoldable pub lstrip : Bytes → Bytes
lstrip [] = []
lstrip (c ∷ s) = let rest = lstrip s in if is_whitespace c then rest else c ∷ s

-- A byte before what is left of the text behind it.
abbrev pub keep_front : ℕ → Bytes → Bytes
keep_front c [] = if is_whitespace c then [] else c ∷ []
keep_front c (d ∷ s) = c ∷ d ∷ s

unfoldable pub rstrip : Bytes → Bytes
rstrip [] = []
rstrip (c ∷ s) = keep_front c (rstrip s)

abbrev pub strip : Bytes → Bytes
strip s = rstrip (lstrip s)

-- `bind_vars.length == count`
abbrev pub has_length : Variables → ℕ → Bool
has_length nil n = n == 0
has_length (cons v vs) zero = false
has_length (cons v vs) (suc n) = has_length vs n

-- The bind_vars of execute_batch: an Array, or a Hash of keys and values in its order.
pub data BatchVars : Type 0 where
  listed : Variables → BatchVars
  keyed : List (Value × Value) → BatchVars

abbrev pub same_length : BatchVars → Value → Bool
same_length (listed vars) (fixnum (pos n)) = has_length vars n
same_length (keyed h) (fixnum (pos n)) = length h == n
same_length _ _ = false

-- What `bind_params(bind_vars)` gets: the elements of an Array, since it flattens its arguments, or the
-- Hash.
abbrev pub given : BatchVars → Variables
given (listed vars) = vars
given (keyed h) = cons (pairs h) nil

-- NoMethodError, of nil.strip.
abbrev no_method_error : Class
no_method_error = other_class 0

abbrev pub strip_value : Value → M Bytes
strip_value (string s) = pure (strip s.bytes)
strip_value v = rb_raise no_method_error "undefined method 'strip'"

module _ ⦃lib : Sqlite⦄ ⦃rb : Ruby⦄ (pack : Pack) (db : Ptr) (vars : BatchVars) where
  -- `unless stmt.closed?`, and the result afterwards.
  unfoldable pub batch_step : Option Row → Ptr → M (Option Row)
  batch_step result stmt = do
    closed ← closed_p stmt
    if rtest closed then pure result else do
      count ← bind_parameter_count stmt
      when (same_length vars count) (bind_params pack stmt (given vars))
      step stmt

  -- The block: what is left of the text, and the result.
  unfoldable pub batch_block : Option Row → Ptr → M (Bytes × Option Row)
  batch_block result stmt = do
    result' ← batch_step result stmt
    rest ← remainder stmt
    sql ← strip_value rest
    pure (sql, result')

  -- `until sql.empty?`, at most `fuel` times.
  unfoldable pub batch_loop : ℕ → Bytes → Option Row → M (Option Row)
  batch_loop zero sql result w = out_of_fuel w
  batch_loop (suc fuel) [] result w = pure result w
  batch_loop (suc fuel) (c ∷ s) result w =
      (prepare_yielding db (sql_string (c ∷ s)) (batch_block result) >>= λ (sql, result').
      batch_loop fuel sql result')
        w

  unfoldable pub execute_batch : ℕ → Bytes → M (Option Row)
  execute_batch fuel sql = batch_loop fuel (strip sql) none
