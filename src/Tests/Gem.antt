-- ===== src/Tests/Gem.antt =====
-- The theorems about lib/sqlite3/statement.rb, at the demo states.
use sqlite3_ruby.Base.{
  ℕ, Bool, ◌==◌, if◌then◌else◌, ◌≡◌, refl, true, ◌++◌, false, Option, none, some, List, [], ◌∷◌,
  arith, pos,
}
use sqlite3_ruby.Values.{
  ll2num, symbol, hash_get, ascii, Ptr, Bytes, Value, qnil, fixnum, bytes_eq, fatal, plain, lit,
  other_class,
}
use sqlite3_ruby.Env.{Sqlite, Log, step_call, reset_call, int64_datum, null_datum}
use sqlite3_ruby.Machine.{◌>>=◌, World, M, ok, raise, pure, final}
use sqlite3_ruby.Logs.{prepares}
use sqlite3_ruby.Database.Discard
use sqlite3_ruby.Statement.Prepare.{
  done_p, reset_bang, allocate, prepare, prepare_result, closed_p, sqlite3_rb_close,
}
use sqlite3_ruby.Errors.Raise.{rb_sqlite3_raise_with_sql}
use sqlite3_ruby.Statement.Columns.{column_count}
use sqlite3_ruby.Statement.Guards.{live_stmt}
use sqlite3_ruby.Statement.Step.{step, reraise_pending, columns2rb, column2rb}
use sqlite3_ruby.Gem.Metadata.{initialize}
use sqlite3_ruby.Callbacks.{enter}
use sqlite3_ruby.Statement.Bind.{bind_datum}
use sqlite3_ruby.Statement.Invariant.{with_done}
use sqlite3_ruby.Statement.Stepping.{IsLive}
use sqlite3_ruby.Statement.Each.{Row, each, next, Delivery, ended, row}
use sqlite3_ruby.Gem.Binding.{Variables, one, array, nil, cons, flatten, bind_params, bind_flat}
use sqlite3_ruby.Gem.Execution.{
  execute, is_active, each_step, each_rounds, execute_bang, broken, stopped,
}
use sqlite3_ruby.Gem.Agreement.{each_step-each}
use sqlite3_ruby.Gem.Executing.{bind_calls, ConvertsIndices, bind_params_calls, execute_bang_once}
use sqlite3_ruby.Gem.Connection.{
  sql_string, begin_text, commit_text, close_unless_closed, new_statement, prepare_yielding,
  execute_all, execute_each, transaction,
}
use sqlite3_ruby.Gem.Fetching.{execute_all-Delivery}
use sqlite3_ruby.Gem.Statistics.{stat, counters, entry, stat-hash_get}
use sqlite3_ruby.Gem.Query.{query, query_yielding}
use sqlite3_ruby.Gem.Querying.{closed_error, query_yielding_closed}
use sqlite3_ruby.Gem.Quote.{quote, put, starts_with_quote, ReadsLiterals, quote-literal}
use sqlite3_ruby.Gem.Transactions.{transaction_ends_once}
use sqlite3_ruby.Gem.Yielding.{ClosedFrom, prepare_yielding_closes}
use sqlite3_ruby.Tests.Demo.{demo_lib, demo_rb, demo_pack, lib_with, busy_world, boom}

abbrev usable_two : IsLive 2 1 88 busy_world
usable_two = record { prepared = refl; open_stmt = refl; live_db = refl }

demo-ConvertsIndices : ConvertsIndices demo_rb
demo-ConvertsIndices i h = refl

-- A value, and an Array of another.
abbrev two_variables : Variables
two_variables = cons (one (fixnum (pos 5))) (cons (array (cons (one qnil) nil)) nil)

bind_params_calls_example :
    bind_params ⦃lib = demo_lib⦄ ⦃rb = demo_rb⦄ demo_pack 2 two_variables busy_world
    ≡ ok tt (record busy_world { log = bind_calls 88 1 (int64_datum (pos 5) ∷ null_datum ∷ []) [] })
unfolding flatten bind_datum
bind_params_calls_example =
    bind_params_calls ⦃lib = demo_lib⦄ ⦃rb = demo_rb⦄ demo_pack 2 1 88 demo-ConvertsIndices
      two_variables (fixnum (pos 5) ∷ qnil ∷ []) (int64_datum (pos 5) ∷ null_datum ∷ []) busy_world
      usable_two refl (omega arith) (refl, refl, (refl, refl, tt))

-- A library whose steps end at once, with statements that have no columns.
abbrev ending : Sqlite
ending = record (lib_with 101) { column_count = λ log st. 0 }

abbrev keep_rows : List Row → Option Row → M (List Row)
keep_rows rows none = pure rows
keep_rows rows (some r) = pure (r ∷ rows)

abbrev reset_world : World
reset_world =
    with_done 2 (busy_world.statements 2) false (record busy_world { log = reset_call 88 ∷ [] })

abbrev stepped_once : World
stepped_once = record reset_world { log = step_call 88 ∷ reset_call 88 ∷ [] }

execute_bang_once_example :
    execute_bang ⦃lib = ending⦄ ⦃rb = demo_rb⦄ 1 demo_pack keep_rows 2 nil [] busy_world
    ≡ ok (broken []) (with_done 2 (reset_world.statements 2) true stepped_once)
unfolding enter
execute_bang_once_example =
    execute_bang_once ⦃lib = ending⦄ ⦃rb = demo_rb⦄ demo_pack 2 1 88 nil busy_world usable_two 101
      (record busy_world { log = reset_call 88 ∷ [] }) refl 0 keep_rows [] reset_world stepped_once
      refl refl refl refl

-- A block that raises StopIteration at the first row.
abbrev stop_at_row : List Row → Option Row → M (List Row)
stop_at_row rows r w = raise (plain (other_class 2) (lit "stop")) w

each_step-each_example :
    each_step ⦃lib = lib_with 100⦄ ⦃rb = demo_rb⦄ 3 stop_at_row 2 [] busy_world
    ≡ ok stopped (record busy_world { log = step_call 88 ∷ [] })
unfolding each_step each_rounds each next step live_stmt enter reraise_pending columns2rb column2rb
each_step-each_example =
    each_step-each ⦃lib = lib_with 100⦄ ⦃rb = demo_rb⦄ 2 stop_at_row 3 [] busy_world

-- A library without columns in which a step ends at once, and all else succeeds.
abbrev step_ends : Log → ℕ
step_ends (step_call st ∷ log) = 101
step_ends _ = 0

abbrev quick : Sqlite
quick = record (lib_with 0) { column_count = λ log st. 0; status = step_ends }

abbrev deferred : Bytes
deferred = ascii "deferred"

abbrev begun : World
begun = final (
    execute_all ⦃lib = quick⦄ ⦃rb = demo_rb⦄ 1 demo_pack 1 (sql_string (begin_text deferred)) nil
      busy_world)

-- A block that is interrupted.
abbrev interrupted : M Value
interrupted w = raise (plain fatal (lit "stopped")) w

-- The transaction is committed all the same.
transaction_ends_once_example :
    prepares commit_text
      (final (
        transaction ⦃lib = quick⦄ ⦃rb = demo_rb⦄ 1 demo_pack 1 deferred interrupted busy_world)).log
    ≡ 1
unfolding execute_all execute_each prepare_yielding close_unless_closed new_statement initialize
    Discard.closed_p allocate prepare prepare_result rb_sqlite3_raise_with_sql closed_p
    sqlite3_rb_close enter bind_params bind_flat flatten each next step live_stmt reraise_pending
    bytes_eq
transaction_ends_once_example =
    transaction_ends_once ⦃lib = quick⦄ ⦃rb = demo_rb⦄ 1 demo_pack 1 commit_text deferred
      interrupted busy_world begun [] refl tt refl

abbrev prepared : World
prepared = final (new_statement ⦃lib = quick⦄ ⦃rb = demo_rb⦄ 1 (sql_string deferred) busy_world)

abbrev raising : Ptr → M Value
raising stmt w = raise boom w

prepare_yielding_closes_example :
    (v : World) × (prepare_yielding ⦃lib = quick⦄ ⦃rb = demo_rb⦄ 1
        (sql_string deferred)
        raising
        busy_world
      ≡ raise boom v)
    × ClosedFrom 100 prepared v
unfolding new_statement initialize Discard.closed_p allocate prepare prepare_result
    rb_sqlite3_raise_with_sql enter
prepare_yielding_closes_example =
    prepare_yielding_closes ⦃lib = quick⦄ ⦃rb = demo_rb⦄ 100 1 (sql_string deferred) raising
      busy_world prepared refl tt λ st h. (0, _, refl)

-- A reader of literals. The flag says that the byte before was a quote that may end the literal.
abbrev read_literal : Bool → Bytes → Option (Bytes × Bytes)
read_literal false [] = none
read_literal false (c ∷ s) =
    let ended = read_literal true s in
    let more = read_literal false s in
    if c == 39 then ended else if c == 0 then none else put (c ∷ []) more
read_literal true [] = some ([], [])
read_literal true (c ∷ s) =
    let more = read_literal false s in if c == 39 then put (c ∷ []) more else some ([], c ∷ s)

closing_quote :
    (rest : Bytes) → starts_with_quote rest ≡ false → read_literal true rest ≡ some ([], rest)
closing_quote [] h = refl
closing_quote (c ∷ rest) h = rw h

read_literal-ReadsLiterals : ReadsLiterals (read_literal false)
read_literal-ReadsLiterals = record {
  doubled = λ s. refl;
  closing = closing_quote;
  plain = λ c s other nonzero. rw (other, nonzero);
}

-- A quoted string with a quote in it, and what follows it in a statement.
quote-literal_example :
    read_literal false (quote (ascii "it's") ++ 39 ∷ ascii ", 1") ≡ some (ascii "it's", ascii ", 1")
quote-literal_example =
    quote-literal (read_literal false) (ascii "it's") (ascii ", 1") read_literal-ReadsLiterals refl
      refl

-- Each step of an odd number meets a row, and all else succeeds.
abbrev rows_then_end : Log → ℕ
rows_then_end (step_call st ∷ step_call st' ∷ log) = 101
rows_then_end (step_call st ∷ log) = 100
rows_then_end _ = 0

abbrev one_row : Sqlite
one_row = record (lib_with 0) { status = rows_then_end }

abbrev made : World
made = final (new_statement ⦃lib = one_row⦄ ⦃rb = demo_rb⦄ 1 (sql_string deferred) busy_world)

abbrev stepped : Log → World
stepped log = record made { log = log }

abbrev delivered : World
delivered =
    with_done 100 (made.statements 100) true (stepped (step_call 77 ∷ step_call 77 ∷ made.log))

delivery :
    Delivery ⦃lib = one_row⦄ ⦃rb = demo_rb⦄ 100 77 made
      ((fixnum (pos 5) ∷ fixnum (pos 6) ∷ []) ∷ [])
      none
      delivered
unfolding enter columns2rb column2rb new_statement initialize Discard.closed_p allocate prepare
    prepare_result rb_sqlite3_raise_with_sql
delivery =
    row {v = stepped (step_call 77 ∷ made.log)} refl refl refl
      (ended {v = stepped (step_call 77 ∷ step_call 77 ∷ made.log)} refl refl)

execute_all-Delivery_example :
    (u : World) × (execute_all ⦃lib = one_row⦄ ⦃rb = demo_rb⦄ 2 demo_pack 1
        (sql_string deferred)
        nil
        busy_world
      ≡ ok ((fixnum (pos 5) ∷ fixnum (pos 6) ∷ []) ∷ []) u)
    × ClosedFrom 100 delivered u
unfolding enter new_statement initialize Discard.closed_p allocate prepare prepare_result
    rb_sqlite3_raise_with_sql bind_params bind_flat flatten
execute_all-Delivery_example =
    execute_all-Delivery ⦃lib = one_row⦄ ⦃rb = demo_rb⦄ 2 demo_pack 1 (sql_string deferred) nil 100
      1 77 busy_world made made delivered ((fixnum (pos 5) ∷ fixnum (pos 6) ∷ []) ∷ []) none refl
      refl (record { prepared = refl; open_stmt = refl; live_db = refl }) refl delivery
      (omega arith) (λ st h. (0, _, refl))

stat-hash_get_example :
    (hash : List (Bytes × ℕ)) × (stat ⦃lib = demo_lib⦄ 2 qnil busy_world
      ≡ ok (counters hash) busy_world)
    × ((key : Bytes)
        → stat ⦃lib = demo_lib⦄ 2 (symbol key) busy_world
          ≡ entry ⦃lib = demo_lib⦄ (hash_get key hash) busy_world)
unfolding live_stmt
stat-hash_get_example = stat-hash_get ⦃lib = demo_lib⦄ 2 88 busy_world refl

abbrev queried : World
queried =
    final (query ⦃lib = quick⦄ ⦃rb = demo_rb⦄ demo_pack 1 (sql_string deferred) nil busy_world)

-- A block that closes the result set.
abbrev closing_block : Ptr → M Value
closing_block stmt = do self ← sqlite3_rb_close ⦃lib = quick⦄ ⦃rb = demo_rb⦄ stmt; pure qnil

query_yielding_closed_example :
    query_yielding ⦃lib = quick⦄ ⦃rb = demo_rb⦄ demo_pack 1
      (sql_string deferred)
      nil
      closing_block
      busy_world
    ≡ raise closed_error (final (closing_block 100 queried))
unfolding query new_statement initialize Discard.closed_p allocate prepare prepare_result
    rb_sqlite3_raise_with_sql execute is_active done_p reset_bang column_count live_stmt step
    reraise_pending sqlite3_rb_close enter ll2num
query_yielding_closed_example =
    query_yielding_closed ⦃lib = quick⦄ ⦃rb = demo_rb⦄ 100 demo_pack 1 (sql_string deferred) nil
      closing_block busy_world queried refl tt refl
