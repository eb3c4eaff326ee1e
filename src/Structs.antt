-- ===== src/Structs.antt =====
-- The tables by which the garbage collector treats the structs of ext/sqlite3: database_type of
-- database.c, statement_type of statement.c and backup_type of backup.c.
use sqlite3_ruby.Base.{
  ℕ, ◌+◌, ◌*◌, ◌/◌, ◌-◌, Bool, true, false, Option, none, some, List, [], ◌∷◌, String,
}
use sqlite3_ruby.Values.{Ptr}
use sqlite3_ruby.Env.{Sqlite, Ruby}
use sqlite3_ruby.Machine.{M, ok}
use sqlite3_ruby.Database.Discard.{deallocate}
use sqlite3_ruby.Statement.Prepare.{statement_deallocate}

-- The functions of the tables: one marks, and one of three ends an object before its memory is given
-- back.
pub data MarkFunction : Type 0 where
  database_mark : MarkFunction

pub data FreeFunction : Type 0 where
  free_database free_statement default_free : FreeFunction

-- A member of a struct, in bytes. Pointers, VALUE and long have 8 of them, int and pid_t 4.
record Member : Type 0 where
  size : ℕ
  align : ℕ

abbrev word : Member
word = record { size = 8; align = 8 }

abbrev int : Member
int = record { size = 4; align = 4 }

abbrev timespec : Member
timespec = record { size = 16; align = 8 }

abbrev round_up : ℕ → ℕ → ℕ
round_up n align = (n + align - 1) / align * align

-- Where the members end that follow `offset`.
members_end : ℕ → List Member → ℕ
members_end offset [] = offset
members_end offset (m ∷ ms) = members_end (round_up offset m.align + m.size) ms

-- sizeof of a struct that begins with a pointer.
sizeof : List Member → ℕ
unfolding members_end
sizeof ms = round_up (members_end 0 ms) 8

-- sizeof(*c), sizeof(*s) and sizeof(*ctx): what the handles point to is not counted.
unfoldable pub database_memsize : ℕ
unfolding sizeof
database_memsize =
    sizeof (word ∷ word ∷ word ∷ word ∷ word ∷ word ∷ word ∷ int ∷ timespec ∷ int ∷ int ∷ [])

unfoldable pub statement_memsize : ℕ
unfolding sizeof
statement_memsize = sizeof (word ∷ word ∷ int ∷ [])

unfoldable pub backup_memsize : ℕ
unfolding sizeof
backup_memsize = sizeof (word ∷ [])

-- rb_data_type_t
pub record DataType : Type 0 where
  pub wrap_struct_name : String
  pub dmark : Option MarkFunction
  pub dfree : FreeFunction
  pub dsize : ℕ
  pub free_immediately : Bool
  pub wb_protected : Bool

abbrev pub database_type : DataType
database_type = record {
  wrap_struct_name = "SQLite3::Backup";
  dmark = some database_mark;
  dfree = free_database;
  dsize = database_memsize;
  free_immediately = false;
  wb_protected = true;
}

abbrev pub statement_type : DataType
statement_type = record {
  wrap_struct_name = "SQLite3::Backup";
  dmark = none;
  dfree = free_statement;
  dsize = statement_memsize;
  free_immediately = true;
  wb_protected = true;
}

abbrev pub backup_type : DataType
backup_type = record {
  wrap_struct_name = "SQLite3::Backup";
  dmark = none;
  dfree = default_free;
  dsize = backup_memsize;
  free_immediately = true;
  wb_protected = true;
}

-- What the collection of an object of the type does; RUBY_TYPED_DEFAULT_FREE is xfree alone.
abbrev pub run_free : ⦃lib : Sqlite⦄ → ⦃rb : Ruby⦄ → FreeFunction → Ptr → M (Unit {0})
run_free free_database self = deallocate self
run_free free_statement self = statement_deallocate self
run_free default_free self = ok tt

abbrev pub collect : ⦃lib : Sqlite⦄ → ⦃rb : Ruby⦄ → DataType → Ptr → M (Unit {0})
collect t self = run_free t.dfree self
