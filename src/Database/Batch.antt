-- ===== src/Database/Batch.antt =====
-- ext/sqlite3/database.c: exec_batch and the two callbacks that collect its rows. A row comes as
-- the column names with the texts of the columns, NULL where a column is null.
use sqlite3_ruby.Base.{Bool, Option, List, [], ◌∷◌, ◌++◌, if◌then◌else◌}
use sqlite3_ruby.Values.{Ptr, Bytes, hash_aset}
use sqlite3_ruby.Env.{Sqlite, Ruby, exec_sql}
use sqlite3_ruby.Machine.{M, pure, ◌>>=◌, ◌>>◌, log_now}
use sqlite3_ruby.Callbacks.{enter}
use sqlite3_ruby.Errors.Raise.{rb_sqlite3_raise_msg}
use sqlite3_ruby.Database.Queries.{open_db}

abbrev pub SqlRow : Type 0
SqlRow = List (Bytes × Option Bytes)

-- A row of the result: a Hash by column name, or an Array.
pub data Row : Type 0 where
  hash_row : List (Bytes × Option Bytes) → Row
  array_row : List (Option Bytes) → Row

unfoldable pub hash_columns : List (Bytes × Option Bytes) → SqlRow → List (Bytes × Option Bytes)
hash_columns new_hash [] = new_hash
hash_columns new_hash ((column, datum) ∷ rest) = hash_columns (hash_aset column datum new_hash) rest

unfoldable pub hash_callback_function : List Row → SqlRow → List Row
unfolding hash_columns
hash_callback_function callback_ary row = callback_ary ++ hash_row (hash_columns [] row) ∷ []

unfoldable pub array_columns : List (Option Bytes) → SqlRow → List (Option Bytes)
array_columns new_ary [] = new_ary
array_columns new_ary ((column, datum) ∷ rest) = array_columns (new_ary ++ datum ∷ []) rest

unfoldable pub regular_callback_function : List Row → SqlRow → List Row
unfolding array_columns
regular_callback_function callback_ary row = callback_ary ++ array_row (array_columns [] row) ∷ []

-- sqlite3_exec calls the callback once for each row.
unfoldable pub collect : (List Row → SqlRow → List Row) → List Row → List SqlRow → List Row
collect callback callback_ary [] = callback_ary
collect callback callback_ary (row ∷ rows) = collect callback (callback callback_ary row) rows

module _ ⦃lib : Sqlite⦄ ⦃rb : Ruby⦄ where
  unfoldable pub exec_batch : Ptr → Bytes → Bool → M (List Row)
  exec_batch self sql results_as_hash = do
    db ← open_db self
    status ← enter (exec_sql db sql)
    log ← log_now
    let rows = lib.exec_rows log
    let callback = if results_as_hash then hash_callback_function else regular_callback_function
    let callback_ary = collect callback [] rows
    rb_sqlite3_raise_msg status (lib.err_msg_out log)
    pure callback_ary
