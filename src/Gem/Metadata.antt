-- ===== src/Gem/Metadata.antt =====
-- lib/sqlite3/statement.rb: initialize, and the names and the types of the columns, which are asked for
-- once.
use sqlite3_ruby.Base.{ℕ, zero, suc, Option, none, some, List, [], ◌∷◌, pos}
use sqlite3_ruby.Values.{
  Ptr, Value, Str, utf8, qnil, fixnum, string, rtest, sqlite3_exception, arg_error, Answer,
  returned, Bytes,
}
use sqlite3_ruby.Env.{Sqlite, Ruby}
use sqlite3_ruby.Machine.{M, ok, pure, ◌>>=◌, ◌>>◌, when, lift, deref, rb_raise, update}
use sqlite3_ruby.Database.Discard
use sqlite3_ruby.Statement.Prepare.{closed_p, prepare}
use sqlite3_ruby.Statement.Columns.{column_count, column_name, column_decltype}

abbrev pub set_columns : Ptr → Option (List Value) → M (Unit {0})
set_columns self names w = ok tt (record w { columns = update w.columns self names })

abbrev pub set_types : Ptr → Option (List Value) → M (Unit {0})
set_types self types w = ok tt (record w { types = update w.types self types })

abbrev pub set_remainder : Ptr → Value → M (Unit {0})
set_remainder self remainder w =
    ok tt (record w { remainders = update w.remainders self remainder })

-- attr_reader :remainder
abbrev pub remainder : Ptr → M Value
remainder self w = ok (w.remainders self) w

-- The size of `Array.new(column_count)`.
abbrev pub size_of : Value → ℕ
size_of (fixnum (pos n)) = n
size_of _ = 0

-- `sql.encode(Encoding::UTF_8)`, if the encoding is another.
abbrev pub utf8_text : ⦃rb : Ruby⦄ → Str → Answer Bytes
utf8_text ⦃rb⦄ sql = elim sql.encoding [ utf8 ↦ returned sql.bytes | _ ↦ rb.encode_utf8 sql ]

module _ ⦃lib : Sqlite⦄ ⦃rb : Ruby⦄ where
  unfoldable pub initialize : Ptr → Ptr → Str → M (Unit {0})
  initialize self db sql = do
    closed ← Discard.closed_p db
    when (rtest closed) (rb_raise arg_error "prepare called on a closed database")
    text ← lift (utf8_text sql)
    set_columns self none
    set_types self none
    remainder ← prepare self db text
    set_remainder self remainder

  -- `column_name column` for `count` columns from `i` on.
  unfoldable pub name_list : Ptr → ℕ → ℕ → M (List Value)
  name_list self zero i = pure []
  name_list self (suc count) i = do
    name ← column_name self (fixnum (pos i))
    names ← name_list self count (suc i)
    pure (name ∷ names)

  -- `val&.downcase`
  abbrev pub downcase_or_nil : Value → Value
  downcase_or_nil (string s) = string (rb.downcase s)
  downcase_or_nil _ = qnil

  unfoldable pub type_list : Ptr → ℕ → ℕ → M (List Value)
  type_list self zero i = pure []
  type_list self (suc count) i = do
    val ← column_decltype self (fixnum (pos i))
    types ← type_list self count (suc i)
    pure (downcase_or_nil val ∷ types)

  unfoldable pub get_metadata : Ptr → M (Unit {0})
  get_metadata self = do
    count ← column_count self
    names ← name_list self (size_of count) 0
    set_columns self (some names)
    count' ← column_count self
    types ← type_list self (size_of count') 0
    set_types self (some types)

  -- `get_metadata unless @columns`, and @columns.
  unfoldable pub columns : Ptr → M (List Value)
  columns self w = elim (w.columns self) [
    | some names ↦ ok names w
    | none ↦ (get_metadata self >> λ v. deref (v.columns self) v) w
  ]

  unfoldable pub must_be_open : Ptr → M (Unit {0})
  must_be_open self = do
    closed ← closed_p self
    when (rtest closed) (rb_raise sqlite3_exception "cannot use a closed statement")

  unfoldable pub types : Ptr → M (List Value)
  types self = do
    must_be_open self
    λ w. elim (w.types self) [
      | some ts ↦ ok ts w
      | none ↦ (get_metadata self >> λ v. deref (v.types self) v) w
    ]
