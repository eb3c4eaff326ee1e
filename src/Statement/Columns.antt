-- ===== src/Statement/Columns.antt =====
-- ext/sqlite3/statement.c: the methods that ask about the columns, the parameters and the text of a
-- statement.
use sqlite3_ruby.Base.{
  ℕ, zero, suc, ◌+◌, Option, none, some, List, [], ◌∷◌, ◌++◌, ◌==◌, if◌then◌else◌, pos,
}
use sqlite3_ruby.Values.{Ptr, Bytes, Value, qnil, string, str_new, utf8_str_new, freeze, ll2num}
use sqlite3_ruby.Env.{Sqlite, Ruby, Log}
use sqlite3_ruby.Machine.{M, pure, ◌>>=◌, lift, log_now}
use sqlite3_ruby.Statement.Guards.{live_stmt}

-- rb_enc_interned_str_cstr: a frozen string.
unfoldable pub interned_utf8_cstr : Bytes → Value
interned_utf8_cstr b = string (freeze (utf8_str_new b))

abbrev interned_or_nil : Option Bytes → Value
interned_or_nil none = qnil
interned_or_nil (some b) = interned_utf8_cstr b

abbrev plain_or_nil : Option Bytes → Value
plain_or_nil none = qnil
plain_or_nil (some b) = string (str_new b)

-- `if (name && *name != '?')`: the name without its first character is pushed. The first character
-- of an empty name is its terminator, and `name + 1` points behind it; SQLite gives no empty name.
abbrev pub push_name : Option Bytes → List Bytes → List Bytes
push_name none params = params
push_name (some []) params = params ++ [] ∷ []
push_name (some (c ∷ name)) params = if c == b'?' then params else params ++ name ∷ []

module _ ⦃lib : Sqlite⦄ where
  unfoldable pub column_count : Ptr → M Value
  column_count self = do
    st ← live_stmt self
    log ← log_now
    pure (ll2num (pos (lib.column_count log st)))

  unfoldable pub column_name : ⦃rb : Ruby⦄ → Ptr → Value → M Value
  column_name ⦃rb⦄ self index = do
    st ← live_stmt self
    i ← lift (rb.num2int index)
    log ← log_now
    pure (interned_or_nil (lib.column_name log st i))

  unfoldable pub column_decltype : ⦃rb : Ruby⦄ → Ptr → Value → M Value
  column_decltype ⦃rb⦄ self index = do
    st ← live_stmt self
    i ← lift (rb.num2int index)
    log ← log_now
    pure (plain_or_nil (lib.column_decltype log st i))

  unfoldable pub database_name : ⦃rb : Ruby⦄ → Ptr → Value → M Value
  database_name ⦃rb⦄ self index = do
    st ← live_stmt self
    i ← lift (rb.num2int index)
    log ← log_now
    pure (string (utf8_str_new (lib.column_database_name log st i)))

  unfoldable pub bind_parameter_count : Ptr → M Value
  bind_parameter_count self = do
    st ← live_stmt self
    log ← log_now
    pure (ll2num (pos (lib.bind_parameter_count log st)))

  -- The loop of named_params: `count` parameters from index `i` on, pushed onto `params`.
  unfoldable pub named_loop : Log → Ptr → ℕ → ℕ → List Bytes → List Bytes
  named_loop log st zero i params = params
  named_loop log st (suc count) i params =
      named_loop log st count (i + 1) (push_name (lib.bind_parameter_name log st i) params)

  -- The contents of the frozen Array of interned strings.
  unfoldable pub named_params : Ptr → M (List Bytes)
  unfolding named_loop
  named_params self = do
    st ← live_stmt self
    log ← log_now
    pure (named_loop log st (lib.bind_parameter_count log st) 1 [])

  unfoldable pub get_sql : Ptr → M Value
  get_sql self = do
    st ← live_stmt self
    log ← log_now
    pure (string (freeze (utf8_str_new (lib.sql log st))))

  unfoldable pub get_expanded_sql : Ptr → M Value
  get_expanded_sql self = do
    st ← live_stmt self
    log ← log_now
    pure (string (freeze (utf8_str_new (lib.expanded_sql log st))))
