-- ===== src/Gem/Fetching.antt =====
-- Proofs about the rows that execute returns (lib/sqlite3/database.rb over ext/sqlite3/statement.c).
use sqlite3_ruby.Base.{
  ℕ, ◌<◌, ◌≡◌, refl, false, Option, none, some, List, [], ◌∷◌, ◌++◌, length, ap, ◌∙◌, sym,
}
use mathlib.Core.List.{foldl, append_assoc, append-nil}
use mathlib.Core.Path.{subst}
use sqlite3_ruby.Values.{Ptr, Str, Exception}
use sqlite3_ruby.Env.{Sqlite, Ruby}
use sqlite3_ruby.Machine.{Settles, World, ok, ◌>>◌, final}
use sqlite3_ruby.Statement.Bind.{Pack}
use sqlite3_ruby.Statement.Closing.{Finishes}
use sqlite3_ruby.Statement.Stepping.{IsLive}
use sqlite3_ruby.Statement.Each.{Row, each, computing, Delivery, returns, each-Delivery}
use sqlite3_ruby.Gem.Binding.{Variables, bind_params}
use sqlite3_ruby.Gem.Connection.{append_row, new_statement, execute_each, execute_all}
use sqlite3_ruby.Gem.Yielding.{in_state, ClosedFrom, prepare_yielding_closes}

foldl-append_row : (front rows : List Row) → foldl append_row front rows ≡ front ++ rows
foldl-append_row front [] = sym (append-nil front)
foldl-append_row front (r ∷ rows) =
    foldl-append_row (append_row front r) rows ∙ append_assoc front (r ∷ []) rows

module _ {S : Type 0} (s : S) (g : World) where
  returns-Settles : (outcome : Option Exception) → Settles (returns s outcome g)
  returns-Settles none = tt
  returns-Settles (some e) = tt

  final-returns : (outcome : Option Exception) → final (returns s outcome g) ≡ g
  final-returns none = refl
  final-returns (some e) = refl

  in_state-returns :
      (outcome : Option Exception) (v : World)
      → in_state (returns s outcome g) v ≡ returns s outcome v
  in_state-returns none v = refl
  in_state-returns (some e) v = refl

module _ ⦃lib : Sqlite⦄ ⦃rb : Ruby⦄ (fuel : ℕ) (pack : Pack) (db : Ptr) (sql : Str)
    (vars : Variables) where
  execute_each-Delivery :
      {S : Type 0} (block : S → Row → S) (s : S) (stmt owner st : Ptr) (w g b v : World)
      (rows : List Row) (outcome : Option Exception)
      → new_statement db sql w ≡ ok stmt g
      → bind_params pack stmt vars g ≡ ok tt b
      → IsLive stmt owner st b
      → (b.statements stmt).done_p ≡ false
      → Delivery stmt st b rows outcome v
      → length rows < fuel
      → Finishes stmt v
      → (u : World) × (execute_each fuel pack db sql vars (computing block) s w
          ≡ returns (foldl block s rows) outcome u)
        × ClosedFrom stmt v u
  unfolding execute_each
  execute_each-Delivery block s stmt owner st w g b v rows outcome made bound live fresh delivery
        enough finishes =
      let total = foldl block s rows in
      let run = λ (x : Ptr). bind_params pack x vars >> each fuel (computing block) x s in
      let ran : run stmt g ≡ returns total outcome v =
        rw bound (each-Delivery block stmt owner st fuel s live fresh delivery enough) in
      let ends : final (run stmt g) ≡ v = ap final ran ∙ final-returns total v outcome in
      let (u, e, c) =
        prepare_yielding_closes stmt db sql run w g made (rw ran (returns-Settles total v outcome))
          (rw ends finishes) in
      (
        u,
        e ∙ ap (λ r. in_state r u) ran ∙ in_state-returns total v outcome u,
        subst (λ x. ClosedFrom stmt x u) ends c,
      )

  -- execute without a block, where the statement was made, the variables were bound, and the statement
  -- is then usable and not at its end, and its steps deliver rows and then the end, an error code, an
  -- exception that a callback left in rb_errinfo or raised through the step or its reset, or a column
  -- of no known type: with more rounds than rows and callbacks of the last sqlite3_finalize that
  -- return, execute returns the rows in order at the end, raises the exception otherwise, and the
  -- statement is closed, its handle finalized once.
  pub execute_all-Delivery :
      (stmt owner st : Ptr) (w g b v : World) (rows : List Row) (outcome : Option Exception)
      → new_statement db sql w ≡ ok stmt g
      → bind_params pack stmt vars g ≡ ok tt b
      → IsLive stmt owner st b
      → (b.statements stmt).done_p ≡ false
      → Delivery stmt st b rows outcome v
      → length rows < fuel
      → Finishes stmt v
      → (u : World) × (execute_all fuel pack db sql vars w ≡ returns rows outcome u)
        × ClosedFrom stmt v u
  unfolding execute_all
  execute_all-Delivery stmt owner st w g b v rows outcome made bound live fresh delivery enough
        finishes =
      let (u, e, c) =
        execute_each-Delivery append_row [] stmt owner st w g b v rows outcome made bound live fresh
          delivery enough finishes in
      (u, e ∙ ap (λ l. returns l outcome u) (foldl-append_row [] rows), c)
