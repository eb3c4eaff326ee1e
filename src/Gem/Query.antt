-- ===== src/Gem/Query.antt =====
-- lib/sqlite3/database.rb: query with a block, get_first_value and get_first_row, where rows are arrays.
use sqlite3_ruby.Base.{ℕ, Option, none, some, List, [], ◌∷◌}
use sqlite3_ruby.Values.{Ptr, Str, Value, qnil, arg_error}
use sqlite3_ruby.Env.{Sqlite, Ruby}
use sqlite3_ruby.Machine.{M, pure, ◌>>=◌, ◌>>◌, rb_raise}
use sqlite3_ruby.Statement.Bind.{Pack}
use sqlite3_ruby.Statement.Each.{Row, next}
use sqlite3_ruby.Gem.Binding.{Variables, nil, cons}
use sqlite3_ruby.Gem.Execution.{execute}
use sqlite3_ruby.Gem.ResultSet.{close}
use sqlite3_ruby.Gem.Connection.{ensured, new_statement, execute_all}

-- `row[0]` of the row that next gave, and nil without one.
abbrev pub first_value : Option Row → Value
first_value none = qnil
first_value (some []) = qnil
first_value (some (v ∷ row)) = v

-- Array#first
abbrev pub first_row : List Row → Option Row
first_row [] = none
first_row (r ∷ rows) = some r

module _ ⦃lib : Sqlite⦄ ⦃rb : Ruby⦄ (pack : Pack) (db : Ptr) (sql : Str) where
  -- A ResultSet is its statement.
  unfoldable pub query : Variables → M Ptr
  query vars = do stmt ← new_statement db sql; execute pack stmt vars; pure stmt

  unfoldable pub query_yielding : {A : Type 0} → Variables → (Ptr → M A) → M A
  query_yielding vars block = do
    result ← query vars
    λ w. ensured (block result w) (do self ← close result; pure tt)

  unfoldable pub get_first_value : Variables → M Value
  get_first_value vars = query_yielding vars λ rs. do row ← next rs; pure (first_value row)

  -- `execute(sql, *bind_vars)`, where execute takes one argument after the text at most.
  unfoldable pub get_first_row : ℕ → Variables → M (Option Row)
  get_first_row fuel (cons v (cons u vars)) = rb_raise arg_error "wrong number of arguments"
  get_first_row fuel (cons v nil) = do
    rows ← execute_all fuel pack db sql (cons v nil)
    pure (first_row rows)
  get_first_row fuel nil = do rows ← execute_all fuel pack db sql nil; pure (first_row rows)
