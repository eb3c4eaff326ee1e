-- ===== src/Gem/Statistics.antt =====
-- lib/sqlite3/statement.rb: stat, over stats_as_hash and stat_for of ext/sqlite3/statement.c.
use sqlite3_ruby.Base.{ℕ, ◌≡◌, refl, Option, none, some, List, [], if◌then◌else◌}
use sqlite3_ruby.Values.{Ptr, Bytes, Value, qnil, symbol, rtest, plain, lit, arg_error, hash_get}
use sqlite3_ruby.Env.{Sqlite}
use sqlite3_ruby.Machine.{World, M, ok, raise, pure, ◌>>=◌}
use sqlite3_ruby.Statement.Guards.{live_stmt}
use sqlite3_ruby.Statement.Stats.{
  stat_order, stat_of, stat_hash, stats_as_hash, stat_value, stat_for, found,
}
use sqlite3_ruby.Statement.Naming.{stat_of-hash_get}

-- A Hash of Symbols and numbers, or one number.
pub data Statistics : Type 0 where
  counters : List (Bytes × ℕ) → Statistics
  counter : ℕ → Statistics

module _ ⦃lib : Sqlite⦄ where
  unfoldable pub stat : Ptr → Value → M Statistics
  stat self key =
      if rtest key
      then (do n ← stat_for self key; pure (counter n))
      else (do hash ← stats_as_hash self; pure (counters hash))

  -- The entry of the Hash under a key, or the exception for a key that is not there.
  abbrev pub entry : Option ℕ → M Statistics
  entry none = raise (plain arg_error (lit "unknown key"))
  entry (some n) = ok (counter n)

  found-entry : (o : Option ℕ) (w : World) → (found o >>= λ n. pure (counter n)) w ≡ entry o w
  found-entry none w = refl
  found-entry (some n) w = refl

  -- stat of a usable statement: without a key it returns a Hash; and with any Symbol it returns the number
  -- that this Hash has under the Symbol, or raises ArgumentError where the Hash does not have it. Neither
  -- changes anything.
  pub stat-hash_get :
      (self st : Ptr) (w : World)
      → live_stmt self w ≡ ok st w
      → (hash : List (Bytes × ℕ)) × (stat self qnil w ≡ ok (counters hash) w)
        × ((key : Bytes) → stat self (symbol key) w ≡ entry (hash_get key hash) w)
  unfolding stat stats_as_hash stat_for stat_value
  stat-hash_get self st w live = (
    stat_hash w.log st [] stat_order,
    rw live,
    λ key.
        rw (live, ← stat_of-hash_get w.log st key)
          (found-entry (stat_of w.log st key stat_order) w),
  )
