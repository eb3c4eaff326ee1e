-- ===== src/Database/Flags.antt =====
-- ext/sqlite3/database.h: the bits of the `flags` field, and the checks that begin the methods of
-- database.c. `f & 1`, `f & 2`, `f | 1` and `f | 2` are written by division, which is the same for
-- every number.
use sqlite3_ruby.Base.{◌+◌, ◌/◌, ◌%◌, Bool, ◌==◌, if◌then◌else◌, is_some, not, ℤ, pos, negsuc}
use sqlite3_ruby.Values.{sqlite3_exception}
use sqlite3_ruby.Machine.{Database, M, when, rb_raise}

-- flags & SQLITE3_RB_DATABASE_READONLY
abbrev pub is_readonly : Database → Bool
is_readonly d = d.flags % 2 == 1

-- flags & SQLITE3_RB_DATABASE_DISCARDED
abbrev pub is_discarded : Database → Bool
is_discarded d = d.flags / 2 % 2 == 1

abbrev pub set_readonly : Database → Database
set_readonly d = record d { flags = if is_readonly d then d.flags else d.flags + 1 }

abbrev pub set_discarded : Database → Database
set_discarded d = record d { flags = if is_discarded d then d.flags else d.flags + 2 }

-- flags & SQLITE_OPEN_READONLY, on a two's complement int.
abbrev pub open_readonly : ℤ → Bool
open_readonly (pos n) = n % 2 == 1
open_readonly (negsuc n) = n % 2 == 0

-- REQUIRE_OPEN_DB
abbrev pub require_open_db : Database → M (Unit {0})
require_open_db d =
    when (not (is_some d.db)) (rb_raise sqlite3_exception "cannot use a closed database")

-- REQUIRE_CLOSED_DB
abbrev pub require_closed_db : Database → M (Unit {0})
require_closed_db d =
    when (is_some d.db) (rb_raise sqlite3_exception "cannot open a database that is already open")
