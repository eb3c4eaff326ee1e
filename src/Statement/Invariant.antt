-- ===== src/Statement/Invariant.antt =====
-- A rule for what step and reset! preserve (ext/sqlite3/statement.c): the calls, their callbacks, and
-- the switch.
use sqlite3_ruby.Base.{
  ℕ, ◌≡◌, refl, Option, none, List, [], Bool, true, false, some, Bool-cases, inl, inr, ap, ◌∙◌, sym,
  arith, ◌∷◌, ◌==◌,
}
use sqlite3_ruby.Values.{Ptr, Value, Answer, returned, raised}
use sqlite3_ruby.Env.{Sqlite, Ruby, Call, Log, step_call, reset_call}
use sqlite3_ruby.Machine.{
  World, Statement, Run, M, ok, raise, fault, out_of_fuel, pure, and_then, lift, ◌>>◌, final,
  update,
}
use sqlite3_ruby.Callbacks.{enter}
use sqlite3_ruby.Callbacks.Kept.{Kept, kept_then}
use sqlite3_ruby.Callbacks.Keeping.{enter-Kept}
use sqlite3_ruby.Errors.Raise.{rb_sqlite3_raise}
use sqlite3_ruby.Statement.Guards.{live_stmt}
use sqlite3_ruby.Statement.Prepare.{reset_bang}
use sqlite3_ruby.Statement.Step.{
  step, step_live, step_result, failed_step, columns2rb, reraise_pending,
}

-- The two checks change nothing, and the handle that they give is the statement's.
pub live_stmt_pure : (self : Ptr) (w : World) → final (live_stmt self w) ≡ w
unfolding live_stmt
live_stmt_pure self w = ground arith

pub live_stmt-held :
    (self st : Ptr) (w g : World)
    → live_stmt self w ≡ ok st g
    → ((w.statements self).st ≡ some st) × (g ≡ w)
unfolding live_stmt
live_stmt-held self st w g e = (ground arith, sym (ap (λ r. final r) e) ∙ live_stmt_pure self w)

-- The state `v` with the struct `ctx` of the statement, done? set or cleared.
abbrev pub with_done : Ptr → Statement → Bool → World → World
with_done stmt ctx d v = record v {
  statements = update v.statements stmt (record ctx { done_p = d });
}

-- A property of states that the parts of step and of reset! keep, one by one.
pub record IsSteady ⦃lib : Sqlite⦄ (P : World → Type 0) (self : Ptr) : Type 0 where
  pub steps :
      (st : Ptr) (w : World)
      → (w.statements self).st ≡ some st
      → P w
      → P (record w { log = step_call st ∷ w.log })
  pub resets :
      (st : Ptr) (w : World)
      → (w.statements self).st ≡ some st
      → P w
      → P (record w { log = reset_call st ∷ w.log })
  pub keeps : (w g : World) → Kept w g → P w → P g
  pub quiets : (w : World) → P w → P (record w { errinfo = none })
  pub marks : (d : Bool) (w : World) → P w → P (with_done self (w.statements self) d w)

lift-pure :
    {A B : Type 0} (a : Answer A) (f : A → B) (w : World)
    → final (and_then (lift a w) (λ x. pure (f x))) ≡ w
lift-pure (returned a) f w = refl
lift-pure (raised e) f w = refl

module _ ⦃lib : Sqlite⦄ ⦃rb : Ruby⦄ (P : World → Type 0) (self : Ptr) (s : IsSteady P self) where
  -- After a call and its callbacks, however they end, and after what comes next.
  call_then :
      {A : Type 0} (c : Call) (k : ℕ → M A) (w : World)
      → P (record w { log = c ∷ w.log })
      → ((n : ℕ) (g : World) → g.statements ≡ w.statements → P g → P (final (k n g)))
      → P (final (and_then (enter c w) k))
  call_then c k w p rest =
      kept_then P (enter c w) k (record w { log = c ∷ w.log }) (enter-Kept c w)
        (λ g h. s.keeps _ g h p) (λ n g h. rest n g h.statements (s.keeps _ g h p))

  marked :
      (ctx : Statement) (d : Bool) (g : World)
      → g.statements self ≡ ctx
      → P g
      → P (with_done self ctx d g)
  marked ctx d g e p = rw (← e) (s.marks d g p)

  raised_after :
      (db : Option Ptr) (value : ℕ) (g : World)
      → P g
      → P (final ((rb_sqlite3_raise db value >> pure {A = Option (List Value)} (some [])) g))
  unfolding rb_sqlite3_raise
  raised_after db value g p = ground arith

  failed_keeps :
      (st : Ptr) (value : ℕ) (g : World)
      → (g.statements self).st ≡ some st
      → P g
      → P (final (failed_step self (g.statements self) st value g))
  unfolding failed_step
  failed_keeps st value g h p =
      call_then (reset_call st) _ g (s.resets st g h p) λ n v e q.
        raised_after _ value _ (marked (g.statements self) false v (ap (λ f. f self) e) q)

  row_keeps :
      (log : Log) (st : Ptr) (g : World)
      → P g
      → P (
          final (
            and_then
              (lift (columns2rb log st (lib.column_count log st) 0) g)
              (λ list. pure (some list))))
  row_keeps log st g p = rw (lift-pure (columns2rb log st (lib.column_count log st) 0) some g) p

  result_keeps :
      (st : Ptr) (value : ℕ) (g : World)
      → (g.statements self).st ≡ some st
      → P g
      → P (final (step_result self (g.statements self) st value g))
  unfolding step_result
  result_keeps st value g h p = elim (Bool-cases (value == 100)) [
    | inl row ↦ rw row (row_keeps g.log st g p)
    | inr other ↦ elim (Bool-cases (value == 101)) [
      | inl done ↦ rw (other, done) (s.marks true g p)
      | inr error ↦ rw (other, error) (failed_keeps st value g h p)
    ]
  ]

  -- After sqlite3_step: an exception that waits is raised, and otherwise the switch follows.
  reraised_keeps :
      (st : Ptr) (value : ℕ) (ctx : Statement) (g : World)
      → g.statements self ≡ ctx
      → ctx.st ≡ some st
      → P g
      → P (final ((reraise_pending >> step_result self ctx st value) g))
  unfolding reraise_pending
  reraised_keeps st value ctx g e h p =
      let r : P (final (step_result self ctx st value g)) =
        rw (← e) (result_keeps st value g (rw e h) p) in
      ground (arith, s.quiets g p, r)

  live_keeps :
      (st : Ptr) (w : World)
      → (w.statements self).st ≡ some st
      → P w
      → P (final (step_live self st w))
  unfolding step_live
  live_keeps st w h p = elim (Bool-cases (w.statements self).done_p) [
    | inl done ↦ rw done p
    | inr more ↦ rw more (
        call_then (step_call st) _ w (s.steps st w h p)
          λ value g e q. reraised_keeps st value (w.statements self) g (ap (λ f. f self) e) h q)
  ]

  checked_keeps :
      {A : Type 0} (k : Ptr → M A) (m : Run Ptr)
      → P (final m)
      → ((st : Ptr) (g : World) → m ≡ ok st g → P (final (k st g)))
      → P (final (and_then m k))
  checked_keeps k (ok st g) p h = h st g refl
  checked_keeps k (raise x g) p h = p
  checked_keeps k (fault g) p h = p
  checked_keeps k (out_of_fuel g) p h = p

  -- What the two checks let through keeps the property.
  live_stmt_keeps :
      {A : Type 0} (k : Ptr → M A) (w : World)
      → P w
      → ((st : Ptr) → (w.statements self).st ≡ some st → P (final (k st w)))
      → P (final (and_then (live_stmt self w) k))
  live_stmt_keeps k w p rest =
      checked_keeps k (live_stmt self w) (rw (live_stmt_pure self w) p)
        λ st g e. let h = live_stmt-held self st w g e in rw h.1 (rest st h.0)

  pub step_keeps : (w : World) → P w → P (final (step self w))
  unfolding step
  step_keeps w p = live_stmt_keeps (step_live self) w p λ st h. live_keeps st w h p

  pub reset_bang_keeps : (w : World) → P w → P (final (reset_bang self w))
  unfolding reset_bang
  reset_bang_keeps w p =
      live_stmt_keeps _ w p
        λ st h. call_then (reset_call st) _ w (s.resets st w h p) λ n g e q. s.marks false g q
