-- ===== src/Tests/Histories.antt =====
-- The theorems about the lives of statements and of connections, at histories of two of them.
use sqlite3_ruby.Base.{pos, ◌≤◌, ◌≡◌, refl, true, false, none, some, [], ◌∷◌, length, arith}
use sqlite3_ruby.Values.{fixnum, Ptr, Bytes}
use sqlite3_ruby.Env.{Sqlite, Log, prepare_v2, finalize, open_v2, open16, close_v2}
use sqlite3_ruby.Machine.{World, final}
use sqlite3_ruby.Logs.{live, is_safe, is_open, is_proper}
use sqlite3_ruby.Callbacks.{enter}
use sqlite3_ruby.Errors.Raise.{rb_sqlite3_raise_with_sql}
use sqlite3_ruby.Statement.Prepare.{allocate, prepare, prepare_result, statement_deallocate}
use sqlite3_ruby.Statement.Finalize.{use_step, use_close, after}
use sqlite3_ruby.Statement.Closing.{Finishes}
use sqlite3_ruby.Statement.Ownership.{given_back}
use sqlite3_ruby.Statement.Histories.{
  IsFresh, History, start, next, allocated, prepared, used, collected, History-safe,
}
use sqlite3_ruby.Database.Discard.{new_struct, sqlite3_rb_close}
use sqlite3_ruby.Database.Open.{rb_sqlite3_open_v2}
use sqlite3_ruby.Database.Connected.{IsFreshOpen}
use sqlite3_ruby.Database.Services.{use_interrupt, serve}
use sqlite3_ruby.Database.Histories.{
  ConnectionHistory, opened, served, forked, closed, ConnectionHistory-proper,
}
use sqlite3_ruby.Tests.Demo.{lib_with, demo_rb, demo_pack, busy_world}

-- A library whose handles are numbered by the calls.
abbrev pub numbering : Sqlite
numbering = record (lib_with 0) { handle = λ log. some (length log) }

live-le-length : (st : Ptr) (log : Log) → live ⦃lib = numbering⦄ st log ≡ true → st ≤ length log
live-le-length st [] h = ground arith
live-le-length st (finalize p ∷ log) h = ground (arith, live-le-length st log)
live-le-length st (prepare_v2 db sql ∷ log) h = ground (arith, live-le-length st log)
live-le-length st (_ ∷ log) h = ground (arith, live-le-length st log)

numbering-IsFresh : IsFresh numbering
numbering-IsFresh log db sql st e = ground (arith, live-le-length st log)

-- No statement was prepared yet.
abbrev no_statements : World
no_statements = record busy_world {
  statements = λ p. record { st = none; db = none; done_p = false };
}

abbrev query : Bytes
query = b'x' ∷ []

-- Two statements are prepared and used in turn; one is closed and collected, the other collected.
abbrev w1 : World
w1 = final (prepare ⦃lib = numbering⦄ ⦃rb = demo_rb⦄ 7 1 query (final (allocate 7 no_statements)))

abbrev w2 : World
w2 = final (prepare ⦃lib = numbering⦄ ⦃rb = demo_rb⦄ 8 1 query (final (allocate 8 w1)))

abbrev w3 : World
w3 =
    after ⦃lib = numbering⦄ ⦃rb = demo_rb⦄ demo_pack 7 use_close
      (after ⦃lib = numbering⦄ ⦃rb = demo_rb⦄ demo_pack 8 use_step w2)

abbrev collect_one : Ptr → World → World
collect_one p w = given_back p (final (statement_deallocate ⦃lib = numbering⦄ ⦃rb = demo_rb⦄ p w))

abbrev w4 : World
w4 = collect_one 8 (collect_one 7 w3)

unfoldable two_lives : History ⦃lib = numbering⦄ ⦃rb = demo_rb⦄ demo_pack no_statements w4
unfolding allocate prepare prepare_result enter rb_sqlite3_raise_with_sql
two_lives =
    next
      (next
        (next
          (next
            (next
              (next (next (next start (allocated 7 refl)) (prepared 7 1 query)) (allocated 8 refl))
              (prepared 8 1 query))
            (used 8 use_step))
          (used 7 use_close))
        (collected 7))
      (collected 8)

-- That library makes no callbacks.
numbering-Finishes : (p : Ptr) (w : World) → Finishes ⦃lib = numbering⦄ ⦃rb = demo_rb⦄ p w
unfolding enter
numbering-Finishes p w = λ st h. (0, record w { log = finalize st ∷ w.log }, refl)

History-safe_example :
    (is_safe ⦃lib = numbering⦄ w4.log ≡ true)
    × ((p st : Ptr) → (w4.statements p).st ≡ some st → live ⦃lib = numbering⦄ st w4.log ≡ true)
    × ((p q st : Ptr) → (w4.statements p).st ≡ some st → (w4.statements q).st ≡ some st → p ≡ q)
unfolding two_lives
History-safe_example =
    History-safe ⦃lib = numbering⦄ ⦃rb = demo_rb⦄ demo_pack no_statements w4 numbering-IsFresh
      (λ p. refl) refl two_lives
      ((
        ((((((((tt, tt), tt), tt), tt), tt), numbering-Finishes 7 _), numbering-Finishes 7 _)),
        numbering-Finishes 8 _,
      ))

open-le-length : (c : Ptr) (log : Log) → is_open ⦃lib = numbering⦄ c log ≡ true → c ≤ length log
open-le-length c [] h = ground arith
open-le-length c (close_v2 p ∷ log) h = ground (arith, open-le-length c log)
open-le-length c (open_v2 name flags vfs ∷ log) h = ground (arith, open-le-length c log)
open-le-length c (open16 name ∷ log) h = ground (arith, open-le-length c log)
open-le-length c (_ ∷ log) h = ground (arith, open-le-length c log)

numbering-IsFreshOpen : IsFreshOpen ⦃lib = numbering⦄
numbering-IsFreshOpen = record {
  fresh_v2 = λ log name flags vfs c e. ground (arith, open-le-length c log);
  fresh16 = λ log name c e. ground (arith, open-le-length c log);
}

-- No connection was opened yet.
abbrev unopened : World
unopened = record busy_world { databases = λ p. new_struct 10 }

-- A connection is opened and used, the process forks, the child opens another, and ends both.
abbrev parent : World
parent = serve ⦃lib = numbering⦄ ⦃rb = demo_rb⦄ 1 use_interrupt (
    final
      (rb_sqlite3_open_v2 ⦃lib = numbering⦄ ⦃rb = demo_rb⦄ 1 query (fixnum (pos 6)) none unopened))

abbrev child : World
child = final (
    rb_sqlite3_open_v2 ⦃lib = numbering⦄ ⦃rb = demo_rb⦄ 5 query (fixnum (pos 6)) none
      (record parent { pid = 11 }))

abbrev last_state : World
last_state =
    final
      (sqlite3_rb_close ⦃lib = numbering⦄ 5 (final (sqlite3_rb_close ⦃lib = numbering⦄ 1 child)))

fork_of_two : ConnectionHistory ⦃lib = numbering⦄ ⦃rb = demo_rb⦄ unopened last_state
fork_of_two =
    ConnectionHistory.next
      (ConnectionHistory.next
        (ConnectionHistory.next
          (ConnectionHistory.next
            (ConnectionHistory.next
              (ConnectionHistory.next ConnectionHistory.start
                (opened 1 query (fixnum (pos 6)) none))
              (served 1 use_interrupt))
            (forked 11))
          (opened 5 query (fixnum (pos 6)) none))
        (closed 1))
      (closed 5)

ConnectionHistory-proper_example :
    (is_proper ⦃lib = numbering⦄ last_state.log ≡ true)
    × ((p c : Ptr)
        → (last_state.databases p).db ≡ some c
        → is_open ⦃lib = numbering⦄ c last_state.log ≡ true)
    × ((p q c : Ptr)
        → (last_state.databases p).db ≡ some c
        → (last_state.databases q).db ≡ some c
        → p ≡ q)
ConnectionHistory-proper_example =
    ConnectionHistory-proper ⦃lib = numbering⦄ ⦃rb = demo_rb⦄ unopened last_state
      numbering-IsFreshOpen (λ p. refl) refl fork_of_two
