-- ===== src/Statement/Histories.antt =====
-- The lives of all the statements of a program (ext/sqlite3/statement.c): objects are allocated,
-- prepared, used, closed and collected in any order.
use sqlite3_ruby.Base.{ℕ, ◌∙◌, ap, ◌≡◌, true, false, Option, none, some, [], ◌∷◌, arith, ==_refl}
use sqlite3_ruby.Values.{Ptr, Bytes}
use sqlite3_ruby.Env.{Sqlite, Ruby, Log, prepare_v2}
use sqlite3_ruby.Machine.{World, Statement, final}
use sqlite3_ruby.Logs.{live, is_safe}
use sqlite3_ruby.Callbacks.{enter}
use sqlite3_ruby.Callbacks.Kept.{kept_then}
use sqlite3_ruby.Callbacks.Keeping.{enter-Kept}
use sqlite3_ruby.Statement.Preparing.{with_db}
use sqlite3_ruby.Errors.Raise.{rb_sqlite3_raise_with_sql}
use sqlite3_ruby.Statement.Prepare.{allocate, prepare, prepare_result}
use sqlite3_ruby.Structs.{statement_type, collect}
use sqlite3_ruby.Statement.Bind.{Pack}
use sqlite3_ruby.Statement.Finalize.{
  Use, use_step, use_close, use_reset, use_clear, use_bind, after, Calm,
}
use sqlite3_ruby.Statement.Closing.{Finishes}
use sqlite3_ruby.Statement.Ownership.{
  IsOwned, Kept-IsOwned, Apart, given_back, Apart-IsOwned, step-IsOwned, close-IsOwned,
  collect-IsOwned, reset-IsOwned, clear-IsOwned, bind-IsOwned,
}

-- sqlite3_prepare_v2 gives a handle that is not in use. (Its documentation: a new prepared statement.)
abbrev pub IsFresh : Sqlite → Type 0
IsFresh lib =
    (log : Log) (db : Option Ptr) (sql : Bytes) (st : Ptr)
    → lib.handle (prepare_v2 db sql ∷ log) ≡ some st
    → live ⦃lib = lib⦄ st log ≡ false

module _ ⦃lib : Sqlite⦄ ⦃rb : Ruby⦄ (pack : Pack) where
  -- One operation of one statement, or something else that makes none of these calls with a
  -- statement's handle.
  pub data Operation : World → World → Type 0 where
    allocated :
        {w : World} (p : Ptr) → (w.statements p).st ≡ none → Operation w (final (allocate p w))
    prepared : {w : World} (p db : Ptr) (sql : Bytes) → Operation w (final (prepare p db sql w))
    used : {w : World} (p : Ptr) (u : Use) → Operation w (after pack p u w)
    collected :
        {w : World} (p : Ptr) → Operation w (given_back p (final (collect statement_type p w)))
    elsewhere : {w g : World} → Apart w g → Operation w g

  pub data History : World → World → Type 0 where
    start : {w : World} → History w w
    next : {u v w : World} → History u v → Operation v w → History u w

  allocate-IsOwned :
      (p : Ptr) (w : World)
      → (w.statements p).st ≡ none
      → IsOwned w
      → IsOwned (final (allocate p w))
  unfolding allocate
  allocate-IsOwned p w e o = record {
    held = λ q s k. ground (arith, o.held q s);
    alone = λ q r s k l. ground (arith, o.alone q r s);
    safe = o.safe;
  }

  -- The call of sqlite3_prepare_v2 is made.
  called-IsOwned :
      (p db : Ptr) (c : Option Ptr) (sql : Bytes) (w : World)
      → IsOwned w
      → IsOwned (record (with_db p db w) { log = prepare_v2 c sql ∷ w.log })
  called-IsOwned p db c sql w o = record {
    held = λ q s k. ground (arith, o.held q s);
    alone = λ q r s k l. ground (arith, o.alone q r s);
    safe = o.safe;
  }

  -- The statement has the handle `h`, which no statement had.
  result-IsOwned :
      (p db : Ptr) (c : Option Ptr) (sql : Bytes) (ctx : Statement) (h : Option Ptr) (status : ℕ)
      (g : World)
      → IsOwned g
      → ((s : Ptr) → h ≡ some s → live s g.log ≡ true)
      → ((q s : Ptr) → h ≡ some s → ¬ ((g.statements q).st ≡ some s))
      → IsOwned (final (prepare_result p db c sql ctx h status g))
  unfolding prepare_result rb_sqlite3_raise_with_sql
  result-IsOwned p db c sql ctx h status g o lives new = record {
    held = λ q s k. ground (arith, o.held q s, lives s);
    alone = λ q r s k l. ground (arith, o.alone q r s, new q s, new r s);
    safe = ground (arith, o.safe);
  }

  prepare-IsOwned :
      (p db : Ptr) (sql : Bytes) (w : World)
      → IsFresh lib
      → IsOwned w
      → IsOwned (final (prepare p db sql w))
  unfolding prepare
  prepare-IsOwned p db sql w fresh o =
      let c = (w.databases db).db in
      let called = prepare_v2 c sql in
      let v = with_db p db w in
      let v' = record v { log = called ∷ w.log } in
      let h = lib.handle (called ∷ w.log) in
      let begun = called-IsOwned p db c sql w o in
      kept_then IsOwned (enter called v) (prepare_result p db c sql (w.statements p) h) v'
        (enter-Kept called v) (λ g k. Kept-IsOwned v' g k begun)
        λ status g k.
          result-IsOwned p db c sql (w.statements p) h status g (Kept-IsOwned v' g k begun)
            (λ s e. k.lives s ∙ ground (arith, e, ==_refl s))
            (λ q s e held.
              ground (arith, ap (λ f. (f q).st) k.statements, o.held q s, fresh w.log c sql s e))

  -- The callbacks that SQLite makes while it finalizes a statement return, in each close and each
  -- collection of a history.
  abbrev pub IsCalm : {w g : World} → Operation w g → Type 0
  IsCalm (allocated p e) = Unit {0}
  IsCalm (prepared p db sql) = Unit {0}
  IsCalm (used {w = w} p u) = Calm pack p u w
  IsCalm (collected {w = w} p) = Finishes p w
  IsCalm (elsewhere k) = Unit {0}

  abbrev pub AllCalm : {w g : World} → History w g → Type 0
  AllCalm start = Unit {0}
  AllCalm (next h op) = AllCalm h × IsCalm op

  after-IsOwned :
      (p : Ptr) (u : Use) (w : World) → Calm pack p u w → IsOwned w → IsOwned (after pack p u w)
  unfolding after
  after-IsOwned p use_step w calm o = step-IsOwned p w o
  after-IsOwned p use_close w calm o = close-IsOwned p w calm o
  after-IsOwned p use_reset w calm o = reset-IsOwned p w o
  after-IsOwned p use_clear w calm o = clear-IsOwned p w o
  after-IsOwned p (use_bind key value) w calm o = bind-IsOwned pack p key value w o

  Operation-IsOwned :
      {w g : World} → IsFresh lib → (op : Operation w g) → IsCalm op → IsOwned w → IsOwned g
  Operation-IsOwned fresh (allocated {w = w} p e) calm o = allocate-IsOwned p w e o
  Operation-IsOwned fresh (prepared {w = w} p db sql) calm o = prepare-IsOwned p db sql w fresh o
  Operation-IsOwned fresh (used {w = w} p u) calm o = after-IsOwned p u w calm o
  Operation-IsOwned fresh (collected {w = w} p) calm o = collect-IsOwned p w calm o
  Operation-IsOwned fresh (elsewhere {w = w} {g = g} k) calm o = Apart-IsOwned w g k o

  History-IsOwned :
      {w g : World} → IsFresh lib → (h : History w g) → AllCalm h → IsOwned w → IsOwned g
  History-IsOwned fresh start calm o = o
  History-IsOwned fresh (next h op) calm o =
      Operation-IsOwned fresh op calm.1 (History-IsOwned fresh h calm.0 o)

  -- Where sqlite3_prepare_v2 gives handles that are not in use, and no callback raises while SQLite
  -- finalizes a statement: in any history of any number of statements that begins with no handle and
  -- an empty log, every sqlite3_step, sqlite3_reset, sqlite3_clear_bindings, sqlite3_bind_ and
  -- sqlite3_finalize was made while its handle was live, so none of these was made after the handle was
  -- finalized, and no handle was finalized twice; and after the history the handles of the statements
  -- are live, each of one statement. Nothing is said of the functions that only read.
  pub History-safe :
      (w g : World)
      → IsFresh lib
      → ((p : Ptr) → (w.statements p).st ≡ none)
      → w.log ≡ []
      → (h : History w g) → AllCalm h
      → (is_safe g.log ≡ true)
        × ((p st : Ptr) → (g.statements p).st ≡ some st → live st g.log ≡ true)
        × ((p q st : Ptr) → (g.statements p).st ≡ some st → (g.statements q).st ≡ some st → p ≡ q)
  History-safe w g fresh empty start_log h calm =
      let o = History-IsOwned fresh h calm (record {
        held = λ p st k. absurd (ground (arith, empty p));
        alone = λ p q st k l. absurd (ground (arith, empty p));
        safe = rw start_log;
      }) in
      (o.safe, o.held, o.alone)
