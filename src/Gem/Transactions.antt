-- ===== src/Gem/Transactions.antt =====
-- Proofs about the texts that transaction prepares (lib/sqlite3/database.rb).
use sqlite3_ruby.Base.{
  ℕ, zero, suc, ◌+◌, ◌++◌, is_some, ◌≡◌, refl, Bool, true, false, Option, none, some, List, [], ◌∷◌,
  ◌∙◌, arith, Bool-cases, inl, inr, if◌then◌else◌,
}
use sqlite3_ruby.Values.{Ptr, Bytes, bytes_eq}
use sqlite3_ruby.Env.{Sqlite, Ruby, prepare_v2, finalize}
use sqlite3_ruby.Machine.{
  Settles, World, Statement, Run, M, ok, raise, fault, out_of_fuel, and_then, pure, ◌>>=◌, update,
  ◌>>◌, final,
}
use sqlite3_ruby.Logs.{prepares}
use sqlite3_ruby.Callbacks.{enter}
use sqlite3_ruby.Callbacks.Kept.{kept_then}
use sqlite3_ruby.Callbacks.Keeping.{enter-Kept}
use sqlite3_ruby.Database.Discard
use sqlite3_ruby.Errors.Raise.{rb_sqlite3_raise_with_sql}
use sqlite3_ruby.Statement.Prepare.{allocate, closed_p, prepare, prepare_result, sqlite3_rb_close}
use sqlite3_ruby.Statement.Bind.{Pack}
use sqlite3_ruby.Statement.Each.{Row, computing, each, each_row, next}
use sqlite3_ruby.Statement.Step.{step}
use sqlite3_ruby.Statement.Invariant.{IsSteady, step_keeps}
use sqlite3_ruby.Gem.Binding.{Variables, nil, bind_params}
use sqlite3_ruby.Gem.Metadata.{set_remainder, initialize}
use sqlite3_ruby.Gem.Executing.{bind_params-SameStructs}
use sqlite3_ruby.Gem.Connection.{
  sql_string, begin_text, commit_text, rollback_text, is_standard, ensured, append_row,
  close_unless_closed, new_statement, prepare_yielding, execute_all, execute_each, commit, rollback,
  end_transaction, ended, transaction,
}

-- `n` of the calls of sqlite3_prepare_v2 so far had the text `sql`.
abbrev pub Prepared : Bytes → ℕ → World → Type 0
Prepared sql n w = prepares sql w.log ≡ n

-- 1 if the texts are equal.
abbrev pub one_if : Bytes → Bytes → ℕ
one_if text sql = if bytes_eq text sql then 1 else 0

-- What holds at the end of one command, and after what comes next, holds at the end of both.
holds_then :
    (P : World → Type 0) {A B : Type 0} (m : Run A) (k : A → M B)
    → P (final m)
    → ((a : A) (g : World) → P g → P (final (k a g)))
    → P (final (and_then m k))
holds_then P (ok a g) k p rest = rest a g p
holds_then P (raise e g) k p rest = p
holds_then P (fault g) k p rest = p
holds_then P (out_of_fuel g) k p rest = p

module _ ⦃lib : Sqlite⦄ ⦃rb : Ruby⦄ (sql : Bytes) (n : ℕ) where
  Prepared-IsSteady : (self : Ptr) → IsSteady (Prepared sql n) self
  Prepared-IsSteady self = record {
    steps = λ st w h p. p;
    resets = λ st w h p. p;
    keeps = λ w g k p. k.prepared sql ∙ p;
    quiets = λ w p. p;
    marks = λ d w p. p;
  }

  each_row-Prepared :
      (again : List Row → M (List Row)) (rows : List Row) (row : Option Row) (g : World)
      → ((rs : List Row) (v : World) → Prepared sql n v → Prepared sql n (final (again rs v)))
      → Prepared sql n g
      → Prepared sql n (final (each_row (computing append_row) again rows row g))
  each_row-Prepared again rows none g h p = p
  each_row-Prepared again rows (some r) g h p = h (rows ++ r ∷ []) g p

  each-Prepared :
      (fuel : ℕ) (stmt : Ptr) (rows : List Row) (w : World)
      → Prepared sql n w
      → Prepared sql n (final (each fuel (computing append_row) stmt rows w))
  unfolding each next
  each-Prepared zero stmt rows w p = p
  each-Prepared (suc fuel) stmt rows w p =
      holds_then (Prepared sql n) (step stmt w) _
        (step_keeps (Prepared sql n) stmt (Prepared-IsSteady stmt) w p)
        λ row g q.
          each_row-Prepared (each fuel (computing append_row) stmt) rows row g
            (λ rs v r. each-Prepared fuel stmt rs v r) q

  sqlite3_rb_close-Prepared :
      (stmt : Ptr) (w : World) (st : Option Ptr)
      → (w.statements stmt).st ≡ st
      → Prepared sql n w
      → Prepared sql n (final (sqlite3_rb_close stmt w))
  unfolding sqlite3_rb_close
  sqlite3_rb_close-Prepared stmt w none e p = rw e p
  sqlite3_rb_close-Prepared stmt w (some st) e p = rw e (
      kept_then (Prepared sql n) (enter (finalize st) w) _ (record w { log = finalize st ∷ w.log })
        (enter-Kept (finalize st) w) (λ g k. k.prepared sql ∙ p) (λ _ g k. k.prepared sql ∙ p))

  close_unless_closed-Prepared :
      (stmt : Ptr) (w : World)
      → Prepared sql n w
      → Prepared sql n (final (close_unless_closed stmt w))
  unfolding close_unless_closed closed_p
  close_unless_closed-Prepared stmt w p = elim (Bool-cases (is_some (w.statements stmt).st)) [
    | inl open_one ↦ rw open_one (
        holds_then (Prepared sql n) (sqlite3_rb_close stmt w) _
          (sqlite3_rb_close-Prepared stmt w (w.statements stmt).st refl p) λ _ v q. q)
    | inr closed ↦ rw closed p
  ]

  prepare_result-Prepared :
      (stmt db : Ptr) (handle : Option Ptr) (text : Bytes) (ctx : Statement) (st : Option Ptr)
      (status : ℕ) (w : World)
      → Prepared sql n w
      → Prepared sql n (final (prepare_result stmt db handle text ctx st status w))
  unfolding prepare_result rb_sqlite3_raise_with_sql
  prepare_result-Prepared stmt db handle text ctx st status w p = ground arith

  ensured-Prepared :
      {A : Type 0} (r : Run A) (cleanup : M (Unit {0}))
      → Prepared sql n (final r)
      → ((g : World) → Prepared sql n g → Prepared sql n (final (cleanup g)))
      → Prepared sql n (final (ensured r cleanup))
  ensured-Prepared (ok a g) cleanup p h =
      holds_then (Prepared sql n) (cleanup g) _ (h g p) λ _ v q. q
  ensured-Prepared (raise e g) cleanup p h =
      holds_then (Prepared sql n) (cleanup g) _ (h g p) λ _ v q. q
  ensured-Prepared (fault g) cleanup p h = p
  ensured-Prepared (out_of_fuel g) cleanup p h = p

-- The connection was not closed.
abbrev pub IsConnected : Ptr → World → Type 0
IsConnected db w = is_some (w.databases db).db ≡ true

-- The state in which initialize of a new statement prepares.
abbrev pub prepared_world : World → World
prepared_world w = record w {
  statements = update w.statements w.fresh (record { st = none; db = none; done_p = false });
  columns = update w.columns w.fresh none;
  types = update w.types w.fresh none;
  fresh = suc w.fresh;
}

module _ ⦃lib : Sqlite⦄ ⦃rb : Ruby⦄ (sql text : Bytes) (db : Ptr) where
  prepares-prepare :
      (stmt : Ptr) (w : World)
      → prepares sql (final (prepare stmt db text w)).log ≡ one_if text sql + prepares sql w.log
  unfolding prepare
  prepares-prepare stmt w =
      let n = one_if text sql + prepares sql w.log in
      kept_then (Prepared sql n) (enter (prepare_v2 (w.databases db).db text) _) _ _
        (enter-Kept (prepare_v2 (w.databases db).db text) _) (λ g k. k.prepared sql)
        (λ _ g k. prepare_result-Prepared sql n stmt db _ text _ _ _ g (k.prepared sql))

  prepares-new_statement :
      (w : World)
      → IsConnected db w
      → prepares sql (final (new_statement db (sql_string text) w)).log
        ≡ one_if text sql + prepares sql w.log
  unfolding new_statement allocate initialize Discard.closed_p
  prepares-new_statement w connected = rw connected (
      holds_then (Prepared sql _)
        ((prepare w.fresh db text >>= set_remainder w.fresh) (prepared_world w)) (λ _. pure w.fresh)
        (holds_then (Prepared sql _) (prepare w.fresh db text (prepared_world w))
          (set_remainder w.fresh) (prepares-prepare w.fresh _) λ _ g p. p)
        λ _ g p. p)

  prepares-execute_all :
      (fuel : ℕ) (pack : Pack) (vars : Variables) (w : World)
      → IsConnected db w
      → prepares sql (final (execute_all fuel pack db (sql_string text) vars w)).log
        ≡ one_if text sql + prepares sql w.log
  unfolding execute_all execute_each prepare_yielding
  prepares-execute_all fuel pack vars w connected =
      let n = one_if text sql + prepares sql w.log in
      holds_then (Prepared sql n) (new_statement db (sql_string text) w) _
        (prepares-new_statement w connected)
        λ stmt g p.
          ensured-Prepared sql n
            ((bind_params pack stmt vars >> each fuel (computing append_row) stmt []) g)
            (close_unless_closed stmt)
            (holds_then (Prepared sql n) (bind_params pack stmt vars g)
              (λ _. each fuel (computing append_row) stmt [])
              ((bind_params-SameStructs pack stmt vars g).texts sql ∙ p)
              λ _ v q. each-Prepared sql n fuel stmt [] v q)
            (λ v q. close_unless_closed-Prepared sql n stmt v q)

-- The text that ends the transaction after the block: a rescue without a class takes StandardErrors
-- only.
abbrev pub ending_text : ⦃rb : Ruby⦄ → {A : Type 0} → Run A → Bytes
ending_text (raise e g) = if is_standard e then rollback_text else commit_text
ending_text _ = commit_text

module _ ⦃lib : Sqlite⦄ ⦃rb : Ruby⦄ (fuel : ℕ) (pack : Pack) (db : Ptr) (sql : Bytes) where
  prepares-end_transaction :
      (abort : Bool) (w : World)
      → IsConnected db w
      → prepares sql (final (end_transaction fuel pack db abort w)).log
        ≡ one_if (if abort then rollback_text else commit_text) sql + prepares sql w.log
  unfolding end_transaction commit rollback
  prepares-end_transaction true w connected =
      holds_then (Prepared sql _) (execute_all fuel pack db (sql_string rollback_text) nil w) _
        (prepares-execute_all sql rollback_text db fuel pack nil w connected) λ _ g p. p
  prepares-end_transaction false w connected =
      holds_then (Prepared sql _) (execute_all fuel pack db (sql_string commit_text) nil w) _
        (prepares-execute_all sql commit_text db fuel pack nil w connected) λ _ g p. p

  prepares-ended :
      {A : Type 0} (r : Run A)
      → Settles r
      → IsConnected db (final r)
      → prepares sql (final (ended fuel pack db r)).log
        ≡ one_if (ending_text r) sql + prepares sql (final r).log
  unfolding ended
  prepares-ended (ok a g) settles connected =
      holds_then (Prepared sql _) (end_transaction fuel pack db false g) _
        (prepares-end_transaction false g connected) λ _ v p. p
  prepares-ended (raise e g) settles connected =
      holds_then (Prepared sql _) (end_transaction fuel pack db (is_standard e) g) _
        (prepares-end_transaction (is_standard e) g connected) λ _ v p. p
  prepares-ended (fault g) settles connected = absurd settles
  prepares-ended (out_of_fuel g) settles connected = absurd settles

  -- transaction with a block, where `begin` returned, the block ended by a value or by an exception, and
  -- the connection is still open: after the block exactly one text is given to sqlite3_prepare_v2, and
  -- once, whatever the statement then does. It is `rollback transaction` if the block raised a
  -- StandardError, and `commit transaction` otherwise, also after any other exception.
  pub transaction_ends_once :
      {A : Type 0} (mode : Bytes) (block : M A) (w g : World) (rows : List Row)
      → execute_all fuel pack db (sql_string (begin_text mode)) nil w ≡ ok rows g
      → Settles (block g)
      → IsConnected db (final (block g))
      → prepares sql (final (transaction fuel pack db mode block w)).log
        ≡ one_if (ending_text (block g)) sql + prepares sql (final (block g)).log
  unfolding transaction
  transaction_ends_once mode block w g rows begun settles connected =
      rw begun (prepares-ended (block g) settles connected)
