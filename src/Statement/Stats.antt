-- ===== src/Statement/Stats.antt =====
-- ext/sqlite3/statement.c: the counters of a statement, stmt_stat_internal, stats_as_hash, stat_for
-- and memused. SQLite defines all the counters.
use sqlite3_ruby.Base.{ℕ, Option, none, some, List, [], ◌∷◌, if◌then◌else◌, pos}
use sqlite3_ruby.Values.{
  Ptr, Bytes, Value, symbol, ll2num, type_error, arg_error, ascii, bytes_eq, hash_aset,
}
use sqlite3_ruby.Env.{Sqlite, Log}
use sqlite3_ruby.Machine.{M, pure, ◌>>=◌, rb_raise, log_now}
use sqlite3_ruby.Statement.Guards.{live_stmt}

-- enum stmt_stat_sym
pub data StatSym : Type 0 where
  fullscan_steps sorts autoindexes vm_steps reprepares runs filter_misses filter_hits : StatSym

-- SQLITE_STMTSTATUS_FULLSCAN_STEP and the others.
abbrev pub stat_type : StatSym → ℕ
stat_type fullscan_steps = 1
stat_type sorts = 2
stat_type autoindexes = 3
stat_type vm_steps = 4
stat_type reprepares = 5
stat_type runs = 6
stat_type filter_misses = 7
stat_type filter_hits = 8

-- The table that setup_stmt_stat_symbols makes.
abbrev pub stat_symbol : StatSym → Bytes
stat_symbol fullscan_steps = ascii "fullscan_steps"
stat_symbol sorts = ascii "sorts"
stat_symbol autoindexes = ascii "autoindexes"
stat_symbol vm_steps = ascii "vm_steps"
stat_symbol reprepares = ascii "reprepares"
stat_symbol runs = ascii "runs"
stat_symbol filter_misses = ascii "filter_misses"
stat_symbol filter_hits = ascii "filter_hits"

-- The SET lines, in their order.
abbrev pub stat_order : List StatSym
stat_order =
    fullscan_steps ∷ sorts ∷ autoindexes ∷ vm_steps ∷ reprepares ∷ runs ∷ filter_misses
    ∷ filter_hits ∷ []

-- A key that no line returned for is refused.
abbrev pub found : Option ℕ → M ℕ
found none = rb_raise arg_error "unknown key"
found (some n) = pure n

module _ ⦃lib : Sqlite⦄ where
  -- The SET lines with a Symbol: the first line whose symbol it is returns.
  unfoldable pub stat_of : Log → Ptr → Bytes → List StatSym → Option ℕ
  stat_of log stmt key [] = none
  stat_of log stmt key (s ∷ rest) =
      if bytes_eq (stat_symbol s) key
      then some (lib.stmt_status log stmt (stat_type s))
      else stat_of log stmt key rest

  -- The SET lines with a Hash: each stores its entry.
  unfoldable pub stat_hash : Log → Ptr → List (Bytes × ℕ) → List StatSym → List (Bytes × ℕ)
  stat_hash log stmt hash [] = hash
  stat_hash log stmt hash (s ∷ rest) =
      stat_hash log stmt (hash_aset (stat_symbol s) (lib.stmt_status log stmt (stat_type s)) hash)
        rest

  -- A Hash whose keys are Symbols.
  unfoldable pub stats_as_hash : Ptr → M (List (Bytes × ℕ))
  unfolding stat_hash
  stats_as_hash self = do st ← live_stmt self; log ← log_now; pure (stat_hash log st [] stat_order)

  -- What stat_for does with a handle.
  unfoldable pub stat_value : Ptr → Value → M ℕ
  unfolding stat_of
  stat_value st (symbol key) = do log ← log_now; found (stat_of log st key stat_order)
  stat_value st _ = rb_raise type_error "non-symbol given"

  unfoldable pub stat_for : Ptr → Value → M ℕ
  stat_for self key = do st ← live_stmt self; stat_value st key

  -- SQLITE_STMTSTATUS_MEMUSED is 99.
  unfoldable pub memused : Ptr → M Value
  memused self = do
    st ← live_stmt self
    log ← log_now
    pure (ll2num (pos (lib.stmt_status log st 99)))
