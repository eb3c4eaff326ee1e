-- ===== src/Errors/Classes.antt =====
-- ext/sqlite3/exception.c, status2klass: the switch over the primary result code. The codes are
-- those of sqlite3.h.
use sqlite3_ruby.Base.{
  ℕ, ◌%◌, ◌≡◌, ◌≢◌, ◌⊎◌, Option, none, some, List, [], ◌∷◌, ◌==◌, if◌then◌else◌,
}
use sqlite3_ruby.Values

-- The cases of the switch after SQLITE_OK.
abbrev pub cases : List (ℕ × Values.Class)
cases =
    (1, Values.sql_exception)
    ∷ (2, Values.internal_exception)
    ∷ (3, Values.permission_exception)
    ∷ (4, Values.abort_exception)
    ∷ (5, Values.busy_exception)
    ∷ (6, Values.locked_exception)
    ∷ (7, Values.memory_exception)
    ∷ (8, Values.read_only_exception)
    ∷ (9, Values.interrupt_exception)
    ∷ (10, Values.io_exception)
    ∷ (11, Values.corrupt_exception)
    ∷ (12, Values.not_found_exception)
    ∷ (13, Values.full_exception)
    ∷ (14, Values.cant_open_exception)
    ∷ (15, Values.protocol_exception)
    ∷ (16, Values.empty_exception)
    ∷ (17, Values.schema_changed_exception)
    ∷ (18, Values.too_big_exception)
    ∷ (19, Values.constraint_exception)
    ∷ (20, Values.mismatch_exception)
    ∷ (21, Values.misuse_exception)
    ∷ (22, Values.unsupported_exception)
    ∷ (23, Values.authorization_exception)
    ∷ (24, Values.format_exception)
    ∷ (25, Values.range_exception)
    ∷ (26, Values.not_a_database_exception)
    ∷ []

-- The first case with the code, or the default.
unfoldable pub select : ℕ → List (ℕ × Values.Class) → Values.Class
select c [] = Values.sqlite3_exception
select c ((k, klass) ∷ rest) = if c == k then klass else select c rest

-- `none` is Qnil.
unfoldable pub status2klass : ℕ → Option Values.Class
unfolding select
status2klass status = if status % 256 == 0 then none else some (select (status % 256) cases)

-- A status as SQLite documents it: SQLITE_OK, or an error whose primary code is in the low byte.
abbrev pub IsResultCode : ℕ → Type 0
IsResultCode status = (status ≡ 0) ⊎ (status % 256 ≢ 0)
