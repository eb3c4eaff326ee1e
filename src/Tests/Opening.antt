-- ===== src/Tests/Opening.antt =====
-- The theorems about the constructor and execute_batch of lib/sqlite3/database.rb, at the demo states.
use sqlite3_ruby.Base.{
  ℕ, ◌<◌, ◌≤◌, ◌≡◌, refl, true, false, none, [], ◌∷◌, ◌==◌, if◌then◌else◌, length, arith, ap,
}
use sqlite3_ruby.Values.{ascii, Bytes, Str, utf16le}
use sqlite3_ruby.Env.{Sqlite, Log, prepare_v2}
use sqlite3_ruby.Machine.{World, ok, Run, final, Settles}
use sqlite3_ruby.Callbacks.{enter}
use sqlite3_ruby.Gem.Connection.{sql_string}
use sqlite3_ruby.Gem.Opening.{
  not_given, open_file, open_mode, Options, array, path, invalid, initialize, initialize_extensions,
}
use sqlite3_ruby.Gem.Permissions.{
  without_permissions, utf16_ignores_permissions, loading_enabled, initialize_extensions_off,
}
use sqlite3_ruby.Gem.Readonly.{ReadsNumbers, TellsReadonly, initialize-TellsReadonly}
use sqlite3_ruby.Database.Lifecycle.{closes}
use sqlite3_ruby.Database.Open.{rb_sqlite3_open_v2}
use sqlite3_ruby.Fork.Tracked.{track, discard}
use sqlite3_ruby.Fork.Constructed.{tracking_one, abandoned, inherited_connection}
use sqlite3_ruby.Gem.Binding.{nil}
use sqlite3_ruby.Gem.Batch.{execute_batch, listed}
use sqlite3_ruby.Gem.Batching.{Advances}
use sqlite3_ruby.Gem.Draining.{execute_batch-Settles}
use sqlite3_ruby.Tests.Demo.{demo_files, demo_lib, demo_rb, demo_pack, lib_with, busy_world, blank}

abbrev read_only : Options
read_only = record {
  readonly = true;
  readwrite = false;
  flags = none;
  utf16 = false;
  strict = true;
  extensions = array (path (ascii "vsv.so") ∷ invalid ∷ []);
}

demo-ReadsNumbers : ReadsNumbers demo_rb
demo-ReadsNumbers n m h = ground (arith, h)

initialize-TellsReadonly_example :
    TellsReadonly
      (λ r. r)
      1
      10
      (initialize ⦃lib = demo_lib⦄ ⦃rb = demo_rb⦄ 1
        (sql_string (ascii "x.db"))
        read_only
        none
        blank)
initialize-TellsReadonly_example =
    initialize-TellsReadonly ⦃lib = demo_lib⦄ ⦃rb = demo_rb⦄ 1 blank refl refl demo-ReadsNumbers
      (sql_string (ascii "x.db")) read_only none

initialize_extensions_off_example :
    loading_enabled ⦃lib = demo_lib⦄ 77
      (final (
        initialize_extensions ⦃lib = demo_lib⦄ ⦃rb = demo_rb⦄ 1 read_only.extensions
          busy_world)).log
    ≡ false
initialize_extensions_off_example =
    initialize_extensions_off ⦃lib = demo_lib⦄ ⦃rb = demo_rb⦄ 1 77 read_only.extensions busy_world
      refl (λ log. refl) refl

-- The name "x" in UTF-16.
abbrev wide_name : Str
wide_name = record (sql_string (b'x' ∷ 0 ∷ [])) { encoding = utf16le }

utf16_ignores_permissions_example :
    initialize ⦃lib = demo_lib⦄ ⦃rb = demo_rb⦄ 1 wide_name read_only none blank
    ≡ initialize ⦃lib = demo_lib⦄ ⦃rb = demo_rb⦄ 1 wide_name
        (without_permissions read_only)
        none
        blank
utf16_ignores_permissions_example =
    utf16_ignores_permissions ⦃lib = demo_lib⦄ ⦃rb = demo_rb⦄ 1 wide_name read_only none blank refl

-- What stands behind the first semicolon.
abbrev behind : Bytes → Bytes
behind [] = []
behind (c ∷ s) = let rest = behind s in if c == b';' then s else rest

length-behind : (s : Bytes) → length (behind s) ≤ length s
length-behind [] = omega arith
length-behind (c ∷ s) = ground (arith, length-behind s)

behind_shorter : (s : Bytes) → 0 < length s → length (behind s) < length s
behind_shorter [] h = absurd (omega arith)
behind_shorter (c ∷ s) h = ground (arith, length-behind s)

-- A library that prepares up to the first semicolon.
abbrev newest_tail : Log → Bytes
newest_tail (prepare_v2 db sql ∷ log) = behind sql
newest_tail _ = []

abbrev splitting : Sqlite
splitting = record (lib_with 0) { tail_out = newest_tail }

splitting-Advances : Advances ⦃lib = splitting⦄ ⦃rb = demo_rb⦄
unfolding enter
splitting-Advances db sql w g status e fine nonempty =
    rw (← ap (λ (r : Run ℕ). final r) e) (behind_shorter sql nonempty)

execute_batch-Settles_example : Settles (
    execute_batch ⦃lib = splitting⦄ ⦃rb = demo_rb⦄ demo_pack 1
      (listed nil)
      20
      (ascii " a; b ;c ")
      busy_world)
execute_batch-Settles_example =
    execute_batch-Settles ⦃lib = splitting⦄ ⦃rb = demo_rb⦄ splitting-Advances demo_pack 1
      (listed nil) 20 (ascii " a; b ;c ") busy_world (omega arith)

abbrev usual : Options
usual = record read_only { readonly = false; strict = false; extensions = not_given }

abbrev connected : World
connected =
    final
      (initialize ⦃lib = demo_lib⦄ ⦃rb = demo_rb⦄ 1 (sql_string (ascii "x.db")) usual none blank)

-- A connection that can write, in a child.
inherited_connection_example :
    (n : ℕ) × (u : World) × (discard ⦃lib = demo_lib⦄
        (λ _. false)
        (tracking_one 1 false)
        (record connected { pid = 11 })
      ≡ ok (n, record { databases = []; suppress = false }) u)
    × (closes u.log ≡ closes connected.log)
    × (u.databases 1 ≡ abandoned (connected.databases 1))
    × (n ≡ 1)
unfolding initialize open_file open_mode initialize_extensions rb_sqlite3_open_v2 track
inherited_connection_example =
    inherited_connection ⦃lib = demo_lib⦄ ⦃rb = demo_rb⦄ demo_files 1 (sql_string (ascii "x.db"))
      usual none blank connected false false 11 refl refl (λ e. absurd (omega arith))
      demo-ReadsNumbers refl refl
