-- ===== src/Gem/Yielding.antt =====
-- Proofs about prepare with a block (lib/sqlite3/database.rb over ext/sqlite3/statement.c).
use sqlite3_ruby.Base.{suc, ◌≡◌, refl, none, some, Option, arith, ==_refl}
use sqlite3_ruby.Values.{Ptr, Str}
use sqlite3_ruby.Env.{Sqlite, Ruby}
use sqlite3_ruby.Machine.{Settles, World, Run, M, ok, raise, fault, out_of_fuel, final}
use sqlite3_ruby.Logs.{finalizes}
use sqlite3_ruby.Statement.Prepare.{closed_p}
use sqlite3_ruby.Statement.Closing.{Finishes, close_open, without_handle, entered_call-Kept}
use sqlite3_ruby.Gem.Connection.{ensured, close_unless_closed, new_statement, prepare_yielding}

-- The outcome, in another state.
abbrev pub in_state : {A : Type 0} → Run A → World → Run A
in_state (ok a _) g = ok a g
in_state (raise e _) g = raise e g
in_state (fault _) g = fault g
in_state (out_of_fuel _) g = out_of_fuel g

-- From `v` to `g` the statement is closed: its handle was finalized once if it had one, and nothing was
-- done if it had none.
pub record ClosedFrom (stmt : Ptr) (v g : World) : Type 0 where
  pub closed : (g.statements stmt).st ≡ none
  pub once :
      (st : Ptr) → (v.statements stmt).st ≡ some st → finalizes st g.log ≡ suc (finalizes st v.log)
  pub idle : (v.statements stmt).st ≡ none → g ≡ v

module _ ⦃lib : Sqlite⦄ ⦃rb : Ruby⦄ (stmt : Ptr) where
  pub ensured-ok :
      {A : Type 0} (r : Run A) (cleanup : M (Unit {0})) (g : World)
      → Settles r
      → cleanup (final r) ≡ ok tt g
      → ensured r cleanup ≡ in_state r g
  ensured-ok (ok a v) cleanup g settles e = rw e
  ensured-ok (raise x v) cleanup g settles e = rw e
  ensured-ok (fault v) cleanup g settles e = absurd settles
  ensured-ok (out_of_fuel v) cleanup g settles e = absurd settles

  pub closing :
      (v : World) (st : Option Ptr)
      → (v.statements stmt).st ≡ st
      → Finishes stmt v
      → (g : World) × (close_unless_closed stmt v ≡ ok tt g) × ClosedFrom stmt v g
  unfolding close_unless_closed closed_p
  closing v none h finishes = (
    v,
    rw h,
    record { closed = h; once = λ st e. absurd (ground (arith, h, e)); idle = λ e. refl },
  )
  closing v (some st) h finishes =
      let (status, g, e) = finishes st h in
      let k = entered_call-Kept (ok status g) e in
      (
        without_handle stmt v g,
        rw (h, close_open stmt v st status g h e),
        record {
          closed = rw (==_refl stmt);
          once = λ p q. ground (arith, h, q, k.finalized p);
          idle = λ q. absurd (ground (arith, h, q));
        },
      )

  -- prepare with a block, where the statement was made, the block ended by a value or by an exception,
  -- and the callbacks that sqlite3_finalize then makes return: the outcome is the block's, and the
  -- statement is closed. Its handle is finalized exactly once if the block left it open, and not again if
  -- the block closed it.
  pub prepare_yielding_closes :
      {A : Type 0} (db : Ptr) (sql : Str) (block : Ptr → M A) (w g : World)
      → new_statement db sql w ≡ ok stmt g
      → Settles (block stmt g)
      → Finishes stmt (final (block stmt g))
      → (v : World) × (prepare_yielding db sql block w ≡ in_state (block stmt g) v)
        × ClosedFrom stmt (final (block stmt g)) v
  unfolding prepare_yielding
  prepare_yielding_closes db sql block w g made settles finishes =
      let (v, e, c) = closing (final (block stmt g)) _ refl finishes in
      (v, rw made (ensured-ok (block stmt g) (close_unless_closed stmt) v settles e), c)
