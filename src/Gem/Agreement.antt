-- ===== src/Gem/Agreement.antt =====
-- Proofs that the loops over the rows agree: Statement#each, ResultSet#each and ResultSet#each_hash
-- (lib/sqlite3/statement.rb and resultset.rb over step of ext/sqlite3/statement.c).
use sqlite3_ruby.Base.{
  ℕ, zero, suc, ◌≡◌, refl, false, not, Option, none, some, List, [], is_some, ◌==◌, ==_refl,
  Bool-cases, inl, inr, ap, ◌∙◌, arith,
}
use sqlite3_ruby.Values.{Ptr, Value, Answer, returned, raised}
use sqlite3_ruby.Env.{Sqlite, Ruby, step_call, reset_call}
use sqlite3_ruby.Machine.{
  World, Statement, Run, M, ok, raise, fault, out_of_fuel, pure, and_then, lift, ◌>>◌, ◌>>=◌,
}
use sqlite3_ruby.Callbacks.{enter}
use sqlite3_ruby.Errors.Raise.{rb_sqlite3_raise}
use sqlite3_ruby.Statement.Guards.{live_stmt}
use sqlite3_ruby.Statement.Prepare.{done_p}
use sqlite3_ruby.Statement.Step.{
  step, step_live, step_result, failed_step, columns2rb, reraise_pending,
}
use sqlite3_ruby.Statement.Invariant.{with_done}
use sqlite3_ruby.Statement.Stepping.{entered-Kept}
use sqlite3_ruby.Statement.Each.{Row, next, each, each_row}
use sqlite3_ruby.Gem.Metadata
use sqlite3_ruby.Gem.ResultSet.{HashRow, zip_to_h, row_hash, next_hash, hash_taken, each_hash}
use sqlite3_ruby.Gem.Execution.{each_step, each_rounds, rescue_stop, step_taken}

-- A step that returns answers nil exactly when done? is then set.
abbrev Agrees : Ptr → Run (Option Row) → Type 0
Agrees self (ok val g) = (g.statements self).done_p ≡ not (is_some val)
Agrees self _ = Unit {0}

Agrees-then :
    {A : Type 0} (self : Ptr) (m : Run A) (k : A → M (Option Row))
    → ((a : A) (g : World) → m ≡ ok a g → Agrees self (k a g))
    → Agrees self (and_then m k)
Agrees-then self (ok a g) k h = h a g refl
Agrees-then self (raise e g) k h = tt
Agrees-then self (fault g) k h = tt
Agrees-then self (out_of_fuel g) k h = tt

module _ ⦃lib : Sqlite⦄ ⦃rb : Ruby⦄ (self : Ptr) where
  row-Agrees :
      (a : Answer Row) (w : World)
      → (w.statements self).done_p ≡ false
      → Agrees self (and_then (lift a w) (λ list. pure (some list)))
  row-Agrees (returned list) w h = h
  row-Agrees (raised e) w h = tt

  raise_same :
      (db : Option Ptr) (value : ℕ) (a : Unit {0}) (w g : World)
      → rb_sqlite3_raise db value w ≡ ok a g
      → g ≡ w
  unfolding rb_sqlite3_raise
  raise_same db value a w g e = ground arith

  failed-Agrees :
      (ctx : Statement) (st value : ℕ) (w : World) → Agrees self (failed_step self ctx st value w)
  unfolding failed_step
  failed-Agrees ctx st value w = Agrees-then self (enter (reset_call st) w) _ λ code g e.
      let v = with_done self ctx false g in
      let db = lib.db_handle g.log st in
      Agrees-then self (rb_sqlite3_raise db value v) (λ _. pure (some []))
        λ a u raised_not. rw (raise_same db value a v u raised_not, ==_refl self)

  result-Agrees :
      (ctx : Statement) (st value : ℕ) (w : World)
      → (w.statements self).done_p ≡ false
      → Agrees self (step_result self ctx st value w)
  unfolding step_result
  result-Agrees ctx st value w h = elim (Bool-cases (value == 100)) [
    | inl row ↦ rw row (row-Agrees (columns2rb w.log st (lib.column_count w.log st) 0) w h)
    | inr other ↦ elim (Bool-cases (value == 101)) [
      | inl done ↦ rw (other, done) (ground arith)
      | inr error ↦ rw (other, error) (failed-Agrees ctx st value w)
    ]
  ]

  reraised-Agrees :
      (ctx : Statement) (st value : ℕ) (w : World)
      → (w.statements self).done_p ≡ false
      → Agrees self ((reraise_pending >> step_result self ctx st value) w)
  unfolding reraise_pending
  reraised-Agrees ctx st value w h = ground (arith, result-Agrees ctx st value w h)

  live-Agrees : (st : Ptr) (w : World) → Agrees self (step_live self st w)
  unfolding step_live
  live-Agrees st w = elim (Bool-cases (w.statements self).done_p) [
    | inl done ↦ rw done done
    | inr more ↦ rw more (
        Agrees-then self (enter (step_call st) w) _ λ value g e.
          let k = entered-Kept st value w g e in
          reraised-Agrees (w.statements self) st value g
            (ap (λ f. (f self).done_p) k.statements ∙ more))
  ]

  step-Agrees : (w : World) → Agrees self (step self w)
  unfolding step
  step-Agrees w = Agrees-then self (live_stmt self w) (step_live self) λ st g e. live-Agrees st g

  module _ {S : Type 0} (block : S → Option Row → M S) where
    then_same :
        (r : Run S) (again again' : S → M S)
        → ((t : S) (g : World) → again t g ≡ again' t g)
        → and_then r again ≡ and_then r again'
    then_same (ok t g) again again' same = same t g
    then_same (raise e g) again again' same = refl
    then_same (fault g) again again' same = refl
    then_same (out_of_fuel g) again again' same = refl

    -- One round of the two loops, with rounds after it that are the same.
    round-Agrees :
        (r : Run (Option Row)) (again again' : S → M S) (s : S)
        → ((t : S) (g : World) → again t g ≡ again' t g)
        → Agrees self r
        → and_then r (λ val. step_taken self (block s val) again s)
          ≡ and_then r (each_row block again' s)
    unfolding done_p
    round-Agrees (ok none g) again again' s same h = rw h
    round-Agrees (ok (some r) g) again again' s same h =
        rw h (then_same (block s (some r) g) again again' same)
    round-Agrees (raise e g) again again' s same h = refl
    round-Agrees (fault g) again again' s same h = refl
    round-Agrees (out_of_fuel g) again again' s same h = refl

    each_rounds-each :
        (fuel : ℕ) (s : S) (w : World) → each_rounds fuel block self s w ≡ each fuel block self s w
    unfolding each_rounds each next
    each_rounds-each zero s w = refl
    each_rounds-each (suc fuel) s w =
        round-Agrees (step self w) (each_rounds fuel block self) (each fuel block self) s
          (each_rounds-each fuel) (step-Agrees w)

    -- Statement#each, with the same number of rounds, is the same function of every state as
    -- ResultSet#each with the rescue of Kernel#loop around it: they make the same steps, call the block
    -- with the same rows in the same order, and leave the same state; where a StopIteration leaves
    -- ResultSet#each, Statement#each returns, and otherwise they end in the same way.
    pub each_step-each :
        (fuel : ℕ) (s : S) (w : World)
        → each_step fuel block self s w ≡ rescue_stop (each fuel block self s w)
    unfolding each_step
    each_step-each fuel s w = ap rescue_stop (each_rounds-each fuel s w)

  -- The block that makes a Hash of each row and gives it to `block`.
  abbrev pub hashing : {S : Type 0} → (S → HashRow → M S) → S → Option Row → M S
  hashing block s none = pure s
  hashing block s (some row) = do names ← Metadata.columns self; block s (zip_to_h [] names row)

  module _ {S : Type 0} (block : S → HashRow → M S) where
    hash_same :
        (names : Run (List Value)) (row : Row) (again again' : S → M S) (s : S)
        → ((t : S) (g : World) → again t g ≡ again' t g)
        → and_then
            (and_then names (λ n. pure (some (zip_to_h [] n row))))
            (hash_taken block again s)
          ≡ and_then (and_then names (λ n. block s (zip_to_h [] n row))) again'
    hash_same (ok n g) row again again' s same =
        then_same (λ t _. pure t) (block s (zip_to_h [] n row) g) again again' same
    hash_same (raise e g) row again again' s same = refl
    hash_same (fault g) row again again' s same = refl
    hash_same (out_of_fuel g) row again again' s same = refl

    hash_round-Agrees :
        (r : Run (Option Row)) (again again' : S → M S) (s : S)
        → ((t : S) (g : World) → again t g ≡ again' t g)
        → Agrees self r
        → and_then (and_then r (row_hash self)) (hash_taken block again s)
          ≡ and_then r (each_row (hashing block) again' s)
    unfolding done_p row_hash
    hash_round-Agrees (ok none g) again again' s same h = rw h
    hash_round-Agrees (ok (some row) g) again again' s same h =
        rw h (hash_same (Metadata.columns self g) row again again' s same)
    hash_round-Agrees (raise e g) again again' s same h = refl
    hash_round-Agrees (fault g) again again' s same h = refl
    hash_round-Agrees (out_of_fuel g) again again' s same h = refl

    -- ResultSet#each_hash, with the same number of rounds, is the same function of every state as
    -- ResultSet#each with a block that asks for the names of the columns, makes a Hash of them and the
    -- row, and goes on with that.
    pub each_hash-each :
        (fuel : ℕ) (s : S) (w : World)
        → each_hash fuel block self s w ≡ each fuel (hashing block) self s w
    unfolding each_hash next_hash each next
    each_hash-each zero s w = refl
    each_hash-each (suc fuel) s w =
        hash_round-Agrees (step self w) (each_hash fuel block self) (each fuel (hashing block) self)
          s (each_hash-each fuel) (step-Agrees w)
