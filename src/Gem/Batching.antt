-- ===== src/Gem/Batching.antt =====
-- Proofs about the loop of execute_batch (lib/sqlite3/database.rb).
use sqlite3_ruby.Base.{
  ℕ, suc, ◌<◌, ◌≤◌, ◌≡◌, Option, none, some, [], ◌∷◌, length, is_some, arith, ==_refl, Bool-cases,
  inl, inr,
}
use sqlite3_ruby.Values.{Ptr, Bytes, Value, string}
use sqlite3_ruby.Env.{Sqlite, Ruby, prepare_v2}
use sqlite3_ruby.Machine.{World, Statement, Returns, ok, final, update, pure, ◌>>=◌}
use sqlite3_ruby.Errors.Classes.{status2klass}
use sqlite3_ruby.Errors.Raise.{rb_sqlite3_raise_with_sql}
use sqlite3_ruby.Callbacks.{enter}
use sqlite3_ruby.Outcome.{Settles-cases, Returns-then}
use sqlite3_ruby.Callbacks.Settling.{enter-Settles}
use sqlite3_ruby.Statement.Prepare.{allocate, prepare, prepare_result}
use sqlite3_ruby.Statement.Settling.{IsPrepared}
use sqlite3_ruby.Database.Discard
use sqlite3_ruby.Gem.Metadata.{initialize, set_remainder}
use sqlite3_ruby.Gem.Connection.{sql_string, new_statement}
use sqlite3_ruby.Gem.Transactions.{prepared_world}
use sqlite3_ruby.Gem.Batch.{keep_front, lstrip, rstrip, strip}

length-lstrip : (s : Bytes) → length (lstrip s) ≤ length s
unfolding lstrip
length-lstrip [] = omega arith
length-lstrip (c ∷ s) = ground (arith, length-lstrip s)

length-keep_front : (c : ℕ) (s : Bytes) → length (keep_front c s) ≤ suc (length s)
length-keep_front c [] = ground arith
length-keep_front c (d ∷ s) = omega arith

length-rstrip : (s : Bytes) → length (rstrip s) ≤ length s
unfolding rstrip
length-rstrip [] = omega arith
length-rstrip (c ∷ s) = omega (arith, length-keep_front c (rstrip s), length-rstrip s)

pub length-strip : (s : Bytes) → length (strip s) ≤ length s
length-strip s = omega (arith, length-lstrip s, length-rstrip (lstrip s))

-- The documentation of sqlite3_prepare_v2: where it succeeds, it leaves the tail behind the first
-- statement of a text, which is shorter than a text that is not empty.
abbrev pub Advances : ⦃lib : Sqlite⦄ → ⦃rb : Ruby⦄ → Type 0
Advances ⦃lib⦄ =
    (db : Option Ptr) (sql : Bytes) (w g : World) (status : ℕ)
    → enter (prepare_v2 db sql) w ≡ ok status g
    → status2klass status ≡ none
    → 0 < length sql
    → length (lib.tail_out g.log) < length sql

-- A tail that is shorter than `n` bytes.
abbrev pub IsTail : ℕ → Value → Type 0
IsTail n (string s) = length s.bytes < n
IsTail n _ = ⊥

-- The statement was prepared, and its remainder is shorter than `n` bytes.
pub record Left (n : ℕ) (stmt : Ptr) (g : World) : Type 0 where
  pub prepared : IsPrepared stmt g
  pub tail : IsTail n (g.remainders stmt)

module _ ⦃lib : Sqlite⦄ ⦃rb : Ruby⦄ (advances : Advances) (db : Ptr) where
  result-IsTail :
      (stmt : Ptr) (handle : Option Ptr) (sql : Bytes) (ctx : Statement) (st : Option Ptr)
      (status : ℕ) (g : World)
      → (status2klass status ≡ none → length (lib.tail_out g.log) < length sql)
      → Returns
          (λ v g. IsPrepared stmt g × IsTail (length sql) v)
          (prepare_result stmt db handle sql ctx st status g)
  unfolding prepare_result rb_sqlite3_raise_with_sql
  result-IsTail stmt handle sql ctx st status g shorter = ground (arith, shorter, ==_refl stmt)

  prepare-IsTail :
      (stmt : Ptr) (sql : Bytes) (w : World)
      → 0 < length sql
      → Returns (λ v g. IsPrepared stmt g × IsTail (length sql) v) (prepare stmt db sql w)
  unfolding prepare
  prepare-IsTail stmt sql w nonempty =
      let u = record w {
        statements =
            update w.statements stmt (record (w.statements stmt) { db = some db; st = none });
      } in
      let call = prepare_v2 (w.databases db).db sql in
      elim (Settles-cases (enter call u) (enter-Settles call u)) [
        | inl (status, e) ↦ rw e (
            result-IsTail stmt (w.databases db).db sql (w.statements stmt) _ status
              (final (enter call u)) (λ fine. advances _ sql u _ status e fine nonempty))
        | inr (x, e) ↦ rw e tt
      ]

  pub new_statement-Left :
      (sql : Bytes) (w : World)
      → 0 < length sql
      → Returns (λ stmt g. Left (length sql) stmt g) (new_statement db (sql_string sql) w)
  unfolding new_statement initialize allocate Discard.closed_p
  new_statement-Left sql w nonempty = elim (Bool-cases (is_some (w.databases db).db)) [
    | inl connected ↦ rw connected (
        Returns-then (λ _ g. Left (length sql) w.fresh g) (λ stmt g. Left (length sql) stmt g)
          ((prepare w.fresh db sql >>= set_remainder w.fresh) (prepared_world w))
          (λ _. pure w.fresh)
          (Returns-then (λ v g. IsPrepared w.fresh g × IsTail (length sql) v)
            (λ _ g. Left (length sql) w.fresh g) (prepare w.fresh db sql (prepared_world w))
            (set_remainder w.fresh) (prepare-IsTail w.fresh sql (prepared_world w) nonempty)
            λ v g p. record { prepared = p.0; tail = rw (==_refl w.fresh) p.1 })
          λ _ g p. p)
    | inr closed ↦ rw closed tt
  ]
