-- ===== src/Database/Rows.antt =====
-- Proofs about the rows of exec_batch (ext/sqlite3/database.c).
use sqlite3_ruby.Base.{
  ℕ, ◌≡◌, ◌%◌, refl, true, false, Bool, none, some, Option, List, [], ◌∷◌, ◌++◌, map, if◌then◌else◌,
  ap, sym, ◌∙◌,
}
use mathlib.Core.List.{append-nil, append_assoc}
use sqlite3_ruby.Values.{Ptr, Bytes, bytes_eq, hash_aset, hash_get, hash_get-hash_aset}
use sqlite3_ruby.Callbacks.{enter}
use sqlite3_ruby.Env.{Ruby, Sqlite, exec_sql}
use sqlite3_ruby.Machine.{World, ok}
use sqlite3_ruby.Errors.Codes.{raise_ok}
use sqlite3_ruby.Database.Batch.{
  SqlRow, Row, hash_row, array_row, hash_columns, array_columns, hash_callback_function,
  regular_callback_function, collect, exec_batch,
}

-- The texts of a row, in order.
abbrev pub data_of : SqlRow → List (Option Bytes)
data_of row = map (λ c. c.1) row

-- The text of the last column with the name.
unfoldable pub last_of : Bytes → Option (Option Bytes) → SqlRow → Option (Option Bytes)
last_of name found [] = found
last_of name found ((column, datum) ∷ rest) =
    last_of name (if bytes_eq column name then some datum else found) rest

array_columns-append :
    (acc : List (Option Bytes)) (row : SqlRow) → array_columns acc row ≡ acc ++ data_of row
unfolding array_columns
array_columns-append acc [] = sym (append-nil acc)
array_columns-append acc ((column, datum) ∷ rest) =
    array_columns-append (acc ++ datum ∷ []) rest ∙ append_assoc acc (datum ∷ []) (data_of rest)

hash_get-hash_columns :
    (name : Bytes) (hash : List (Bytes × Option Bytes)) (row : SqlRow)
    → hash_get name (hash_columns hash row) ≡ last_of name (hash_get name hash) row
unfolding hash_columns last_of
hash_get-hash_columns name hash [] = refl
hash_get-hash_columns name hash ((column, datum) ∷ rest) =
    hash_get-hash_columns name (hash_aset column datum hash) rest
    ∙ ap (λ found. last_of name found rest) (hash_get-hash_aset column name datum hash)

collect-map :
    (callback : List Row → SqlRow → List Row) (f : SqlRow → Row)
    → ((acc : List Row) (row : SqlRow) → callback acc row ≡ acc ++ f row ∷ [])
    → (acc : List Row) (rows : List SqlRow) → collect callback acc rows ≡ acc ++ map f rows
unfolding collect
collect-map callback f h acc [] = sym (append-nil acc)
collect-map callback f h acc (row ∷ rows) =
    collect-map callback f h (callback acc row) rows
    ∙ ap (λ l. l ++ map f rows) (h acc row)
    ∙ append_assoc acc (f row ∷ []) (map f rows)

-- The row of the result, by the option results_as_hash.
abbrev pub row_of : Bool → SqlRow → Row
row_of true row = hash_row (hash_columns [] row)
row_of false row = array_row (data_of row)

module _ ⦃lib : Sqlite⦄ ⦃rb : Ruby⦄ (self db : Ptr) (sql : Bytes) (w : World) where
  batch_rows :
      (as_hash : Bool) (rows : List SqlRow)
      → collect (if as_hash then hash_callback_function else regular_callback_function) [] rows
        ≡ map (row_of as_hash) rows
  unfolding hash_callback_function regular_callback_function
  batch_rows true rows = collect-map hash_callback_function (row_of true) (λ acc row. refl) [] rows
  batch_rows false rows =
      collect-map regular_callback_function (row_of false)
        (λ acc row. ap (λ l. acc ++ array_row l ∷ []) (array_columns-append [] row)) [] rows

  -- exec_batch on an open connection, when sqlite3_exec and its callbacks return to it with success,
  -- returns one entry for each row that the library delivered, in order: the texts of the columns in
  -- order, or, with results_as_hash, a Hash that has for every column name the text of the last
  -- column of that name. It changes nothing but what that call and its callbacks did.
  pub exec_batch_rows :
      (as_hash : Bool) (status : ℕ) (g : World)
      → (w.databases self).db ≡ some db
      → enter (exec_sql db sql) w ≡ ok status g
      → status % 256 ≡ 0
      → (exec_batch self sql as_hash w ≡ ok (map (row_of as_hash) (lib.exec_rows g.log)) g)
        × ((name : Bytes) (row : SqlRow)
            → hash_get name (hash_columns [] row) ≡ last_of name none row)
  unfolding exec_batch hash_get
  exec_batch_rows as_hash status g e entered done = (
    rw (
      e,
      entered,
      (raise_ok (some db) status (lib.err_msg_out g.log) sql g done).1,
      batch_rows as_hash (lib.exec_rows g.log),
    ),
    λ name row. hash_get-hash_columns name [] row,
  )
