-- ===== src/Gem/Binding.antt =====
-- lib/sqlite3/statement.rb, bind_params: the variables of a call, and their places.
use sqlite3_ruby.Base.{ℕ, suc, List, [], ◌∷◌, ◌++◌, pos}
use sqlite3_ruby.Values.{Ptr, Value, fixnum}
use sqlite3_ruby.Env.{Sqlite, Ruby}
use sqlite3_ruby.Machine.{M, pure, ◌>>=◌, ◌>>◌}
use sqlite3_ruby.Statement.Bind.{Pack, bind_param}

-- A variable is a value, a Hash of keys and values in its order, or an Array of variables.
mutual
  pub data Variable : Type 0 where
    one : Value → Variable
    pairs : List (Value × Value) → Variable
    array : Variables → Variable

  pub data Variables : Type 0 where
    nil : Variables
    cons : Variable → Variables → Variables

-- What Array#flatten leaves: the Arrays are gone, in their places are their elements.
pub data Flat : Type 0 where
  value : Value → Flat
  hash : List (Value × Value) → Flat

unfoldable mutual
  pub flatten_one : Variable → List Flat
  flatten_one (one v) = value v ∷ []
  flatten_one (pairs h) = hash h ∷ []
  flatten_one (array vs) = flatten vs

  pub flatten : Variables → List Flat
  flatten nil = []
  flatten (cons v vs) = flatten_one v ++ flatten vs

module _ ⦃lib : Sqlite⦄ ⦃rb : Ruby⦄ (pack : Pack) (self : Ptr) where
  -- `var.each { |key, val| bind_param key, val }`
  unfoldable pub bind_pairs : List (Value × Value) → M (Unit {0})
  bind_pairs [] = pure tt
  bind_pairs ((key, val) ∷ rest) = do bound ← bind_param pack self key val; bind_pairs rest

  -- The loop over the variables; `index` is the place of the next value that stands alone.
  unfoldable pub bind_flat : ℕ → List Flat → M (Unit {0})
  bind_flat index [] = pure tt
  bind_flat index (value v ∷ rest) = do
    bound ← bind_param pack self (fixnum (pos index)) v
    bind_flat (suc index) rest
  bind_flat index (hash h ∷ rest) = do bind_pairs h; bind_flat index rest

  unfoldable pub bind_params : Variables → M (Unit {0})
  bind_params bind_vars = bind_flat 1 (flatten bind_vars)
