-- ===== src/Tests/Connections.antt =====
-- The theorems about connections, statements of a dropped connection and backups, at the demo states.
use sqlite3_ruby.Base.{
  ℕ, ◌+◌, ◌≡◌, refl, true, false, none, some, List, [], ◌∷◌, if◌then◌else◌, pos, map,
}
use sqlite3_ruby.Values.{Bytes, Str, utf16le, Value, fixnum, plain, lit, arg_error, hash_get}
use sqlite3_ruby.Env.{open16, exec_sql}
use sqlite3_ruby.Machine.{World, ok, raise, final, update}
use sqlite3_ruby.Database.Discard.{close_or_discard_db, sqlite3_rb_close}
use sqlite3_ruby.Database.Lifecycle.{closes}
use sqlite3_ruby.Database.Close.{Ended, close_or_discard_db-Ended}
use sqlite3_ruby.Database.Open.{rb_sqlite3_open16, utf16_string_value_ptr}
use sqlite3_ruby.Database.Opening16.{open16_again, terminated}
use sqlite3_ruby.Callbacks.{enter}
use sqlite3_ruby.Database.Batch.{exec_batch, SqlRow, hash_columns}
use sqlite3_ruby.Database.Rows.{row_of, last_of, exec_batch_rows}
use sqlite3_ruby.Statement.Refusals.{Refuses, discarded_error}
use sqlite3_ruby.Fork.Events.{
  Event, fork_to, new_db, close_db, collect_db, Node, happen, happen_all,
}
use sqlite3_ruby.Fork.Safety.{may_close, fork_safe}
use sqlite3_ruby.Fork.Statements.{forked_statement-Refuses}
use sqlite3_ruby.Fork.Tracked.{ForkSafety, alive, collected, track, discard}
use sqlite3_ruby.Fork.Discarding.{Swept, discard-Swept}
use sqlite3_ruby.Tests.Demo.{demo_lib, demo_rb, demo_files, blank, busy_world, child_world}

abbrev path : Bytes
path = b'd' ∷ b'b' ∷ []

-- SQLITE_OPEN_READWRITE | SQLITE_OPEN_CREATE
abbrev read_write : Value
read_write = fixnum (pos 6)

abbrev start : Node
start = record { world = blank; opened_in = λ p. 0; writable = λ p. false }

-- A database is opened for writing and carried to a child process, which closes it.
abbrev story : List Event
story = new_db 1 path read_write ∷ fork_to 11 ∷ []

abbrev told : Node
told = happen_all ⦃lib = demo_lib⦄ ⦃rb = demo_rb⦄ story start

fork_safe_example :
    (closes (happen ⦃lib = demo_lib⦄ ⦃rb = demo_rb⦄ (close_db 1) told).world.log
      ≡ closes told.world.log + (if may_close told 1 then 1 else 0))
    × (closes (happen ⦃lib = demo_lib⦄ ⦃rb = demo_rb⦄ (collect_db 1) told).world.log
        ≡ closes told.world.log + (if may_close told 1 then 1 else 0))
    × (((happen ⦃lib = demo_lib⦄ ⦃rb = demo_rb⦄ (close_db 1) told).world.databases 1).db ≡ none)
fork_safe_example = fork_safe ⦃lib = demo_lib⦄ ⦃rb = demo_rb⦄ demo_files story start 1 (λ q. refl)

close_or_discard_db-Ended_example :
    Ended child_world 1 (close_or_discard_db ⦃lib = demo_lib⦄ 1 child_world)
close_or_discard_db-Ended_example =
    close_or_discard_db-Ended ⦃lib = demo_lib⦄ demo_files 1 child_world

forked_statement-Refuses_example :
    Refuses ⦃lib = demo_lib⦄ ⦃rb = demo_rb⦄ discarded_error 2
      (final (sqlite3_rb_close ⦃lib = demo_lib⦄ 1 child_world))
forked_statement-Refuses_example =
    forked_statement-Refuses ⦃lib = demo_lib⦄ ⦃rb = demo_rb⦄ 1 77 2 child_world demo_files refl refl
      refl

-- A file name in UTF-16.
abbrev path16 : Str
path16 = record { bytes = b'd' ∷ 0 ∷ []; encoding = utf16le; blob = false; frozen = false }

-- The same string object after the call.
abbrev taken16 : Str
taken16 = record path16 { bytes = b'd' ∷ 0 ∷ 0 ∷ 0 ∷ [] }

abbrev opened_world : World
opened_world = record blank {
  databases = update blank.databases 1 (record (blank.databases 1) { db = some 77 });
  log = open16 (taken16.bytes) ∷ [];
}

open16_again_example :
    (path16.frozen ≡ false)
    × (taken16 ≡ terminated path16)
    × (rb_sqlite3_open16 ⦃lib = demo_lib⦄ ⦃rb = demo_rb⦄ 5 taken16 opened_world
        ≡ raise (plain arg_error (lit "string contains null char")) opened_world)
unfolding rb_sqlite3_open16 utf16_string_value_ptr
open16_again_example =
    open16_again ⦃lib = demo_lib⦄ ⦃rb = demo_rb⦄ path16 refl 1 5 blank opened_world opened_world
      taken16 (record { points = b'd' ∷ 0 ∷ []; read = refl; has_nul = refl }) refl refl

exec_batch_rows_example :
    let log = exec_sql 77 path ∷ [] in
    (exec_batch ⦃lib = demo_lib⦄ ⦃rb = demo_rb⦄ 1 path true busy_world
      ≡ ok (map (row_of true) (demo_lib.exec_rows log)) (record busy_world { log = log }))
    × ((name : Bytes) (row : SqlRow) → hash_get name (hash_columns [] row) ≡ last_of name none row)
unfolding enter
exec_batch_rows_example =
    exec_batch_rows ⦃lib = demo_lib⦄ ⦃rb = demo_rb⦄ 1 77 path busy_world true 0
      (record busy_world { log = exec_sql 77 path ∷ [] }) refl refl refl

-- A process that tracks a connection, an object that was collected, and a second entry of the first.
abbrev tracking : ForkSafety
tracking = track 1 (record { databases = alive 1 ∷ collected ∷ []; suppress = false })

discard-Swept_example :
    (n : ℕ) × (g : World) × (discard ⦃lib = demo_lib⦄ (λ p. false) tracking child_world
      ≡ ok (n, record { databases = []; suppress = false }) g)
    × Swept (λ p. false) (alive 1 ∷ collected ∷ alive 1 ∷ []) false child_world n g
unfolding track
discard-Swept_example = discard-Swept ⦃lib = demo_lib⦄ demo_files (λ p. false) tracking child_world
