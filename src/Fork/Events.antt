-- ===== src/Fork/Events.antt =====
-- The life of the Database objects of a program, seen from one branch of its process tree: the
-- constructor of lib/sqlite3/database.rb allocates and opens at once, fork goes on in the child, and
-- connections end by close, by the garbage collector or by discard (ext/sqlite3/database.c).
use sqlite3_ruby.Base.{ℕ, Bool, true, not, none, List, [], ◌∷◌, ℤ}
use sqlite3_ruby.Values.{Ptr, Bytes, Str, Value, Answer, returned, raised}
use sqlite3_ruby.Env.{Sqlite, Ruby}
use sqlite3_ruby.Machine.{World, final, update}
use sqlite3_ruby.Database.Flags.{open_readonly}
use sqlite3_ruby.Database.Discard.{allocate, sqlite3_rb_close, deallocate}
use sqlite3_ruby.Database.Open.{rb_sqlite3_open_v2, rb_sqlite3_open16}

pub data Event : Type 0 where
  fork_to : ℕ → Event
  new_db : Ptr → Bytes → Value → Event
  new_db16 : Ptr → Str → Event
  close_db : Ptr → Event
  collect_db : Ptr → Event

-- The state, and what an onlooker notes of each object: the process that opened its connection, and
-- whether the connection was opened for writing.
pub record Node : Type 0 where
  pub world : World
  pub opened_in : Ptr → ℕ
  pub writable : Ptr → Bool

-- Whether a mode asks for a connection that can write.
abbrev pub asks_to_write : Answer ℤ → Bool
asks_to_write (returned flags) = not (open_readonly flags)
asks_to_write (raised e) = true

abbrev pub note : Ptr → Bool → Node → World → Node
note self w n g = record {
  world = g;
  opened_in = update n.opened_in self n.world.pid;
  writable = update n.writable self w;
}

module _ ⦃lib : Sqlite⦄ ⦃rb : Ruby⦄ where
  unfoldable pub happen : Event → Node → Node
  happen (fork_to child) n = record n { world = record (n.world) { pid = child } }
  happen (new_db self file mode) n =
      let g = final (allocate self n.world) in
      note self (asks_to_write (rb.num2int mode)) n
        (final (rb_sqlite3_open_v2 self file mode none g))
  happen (new_db16 self file) n =
      let g = final (allocate self n.world) in
      note self true n (final (rb_sqlite3_open16 self file g))
  happen (close_db self) n = record n { world = final (sqlite3_rb_close self n.world) }
  happen (collect_db self) n = record n { world = final (deallocate self n.world) }

  unfoldable pub happen_all : List Event → Node → Node
  happen_all [] n = n
  happen_all (e ∷ es) n = happen_all es (happen e n)
