-- ===== src/Gem/Connection.antt =====
-- lib/sqlite3/database.rb: prepare with a block, execute, commit, rollback and transaction with a block.
-- `results_as_hash` is not set here, so rows are arrays.
use sqlite3_ruby.Base.{ℕ, Bool, true, false, not, Option, List, [], ◌∷◌, ◌++◌, if◌then◌else◌}
use sqlite3_ruby.Values.{ascii, Ptr, Bytes, Str, utf8, rtest, Class, fatal, other_class, Exception}
use sqlite3_ruby.Env.{Sqlite, Ruby}
use sqlite3_ruby.Machine.{Run, M, ok, raise, fault, out_of_fuel, and_then, pure, ◌>>=◌, ◌>>◌, when}
use sqlite3_ruby.Aggregator.Callbacks.{new_object}
use sqlite3_ruby.Statement.Prepare.{allocate, closed_p, sqlite3_rb_close}
use sqlite3_ruby.Statement.Bind.{Pack}
use sqlite3_ruby.Statement.Each.{Row, computing, each}
use sqlite3_ruby.Gem.Binding.{Variables, nil, bind_params}
use sqlite3_ruby.Gem.Metadata.{initialize}

-- A UTF-8 string with these bytes.
abbrev pub sql_string : Bytes → Str
sql_string b = record { bytes = b; encoding = utf8; blob = false; frozen = false }

abbrev pub commit_text : Bytes
commit_text = ascii "commit transaction"

abbrev pub rollback_text : Bytes
rollback_text = ascii "rollback transaction"

abbrev pub begin_text : Bytes → Bytes
begin_text mode = ascii "begin " ++ (mode ++ ascii " transaction")

-- Whether `rescue` without a class takes the exception: SQLite3::Exception and its subclasses
-- (lib/sqlite3/errors.rb), ArgumentError, TypeError and RuntimeError are StandardErrors.
abbrev standard_class : ⦃rb : Ruby⦄ → Class → Bool
standard_class fatal = false
standard_class ⦃rb⦄ (other_class n) = rb.is_standard n
standard_class _ = true

abbrev pub is_standard : ⦃rb : Ruby⦄ → Exception → Bool
is_standard e = standard_class e.class_of

-- `begin ... ensure ... end`: what the cleanup raises takes the place of what came before.
abbrev pub ensured : {A : Type 0} → Run A → M (Unit {0}) → Run A
ensured (ok a g) cleanup = and_then (cleanup g) (λ _. ok a)
ensured (raise e g) cleanup = and_then (cleanup g) (λ _. raise e)
ensured (fault g) cleanup = fault g
ensured (out_of_fuel g) cleanup = out_of_fuel g

abbrev pub append_row : List Row → Row → List Row
append_row rows r = rows ++ r ∷ []

module _ ⦃lib : Sqlite⦄ ⦃rb : Ruby⦄ where
  -- `stmt.close unless stmt.closed?`
  unfoldable pub close_unless_closed : Ptr → M (Unit {0})
  close_unless_closed stmt = do
    closed ← closed_p stmt
    when (not (rtest closed)) (do self ← sqlite3_rb_close stmt; pure tt)

  -- SQLite3::Statement.new(self, sql)
  unfoldable pub new_statement : Ptr → Str → M Ptr
  new_statement db sql = do
    stmt ← new_object
    self ← allocate stmt
    initialize stmt db sql
    pure stmt

  -- prepare with a block.
  unfoldable pub prepare_yielding : {A : Type 0} → Ptr → Str → (Ptr → M A) → M A
  prepare_yielding db sql block = do
    stmt ← new_statement db sql
    λ w. ensured (block stmt w) (close_unless_closed stmt)

  -- execute; the loop over the rows has `fuel` rounds, and the block keeps the values `s`.
  unfoldable pub execute_each :
      {S : Type 0} → ℕ → Pack → Ptr → Str → Variables → (S → Option Row → M S) → S → M S
  execute_each fuel pack db sql vars block s =
      prepare_yielding db sql λ stmt. do bind_params pack stmt vars; each fuel block stmt s

  -- execute without a block collects the rows.
  unfoldable pub execute_all : ℕ → Pack → Ptr → Str → Variables → M (List Row)
  execute_all fuel pack db sql vars = execute_each fuel pack db sql vars (computing append_row) []

  unfoldable pub commit : ℕ → Pack → Ptr → M (Unit {0})
  commit fuel pack db = do rows ← execute_all fuel pack db (sql_string commit_text) nil; pure tt

  unfoldable pub rollback : ℕ → Pack → Ptr → M (Unit {0})
  rollback fuel pack db = do rows ← execute_all fuel pack db (sql_string rollback_text) nil; pure tt

  -- `abort and rollback or commit`
  unfoldable pub end_transaction : ℕ → Pack → Ptr → Bool → M (Unit {0})
  end_transaction fuel pack db abort = if abort then rollback fuel pack db else commit fuel pack db

  -- The rescue and the ensure around the block.
  unfoldable pub ended : {A : Type 0} → ℕ → Pack → Ptr → Run A → Run A
  ended fuel pack db (ok a g) = ensured (ok a g) (end_transaction fuel pack db false)
  ended fuel pack db (raise e g) =
      ensured (raise e g) (end_transaction fuel pack db (is_standard e))
  ended fuel pack db (fault g) = fault g
  ended fuel pack db (out_of_fuel g) = out_of_fuel g

  -- transaction with a block, and the mode that was given or that is the default.
  unfoldable pub transaction : {A : Type 0} → ℕ → Pack → Ptr → Bytes → M A → M A
  transaction fuel pack db mode block = do
    rows ← execute_all fuel pack db (sql_string (begin_text mode)) nil
    λ w. ended fuel pack db (block w)
