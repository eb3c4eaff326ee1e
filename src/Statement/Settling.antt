-- ===== src/Statement/Settling.antt =====
-- Proofs that prepare, step and close return or raise (ext/sqlite3/statement.c).
use sqlite3_ruby.Base.{ℕ, ◌≡◌, true, is_some, Bool-cases, Option-cases, inl, inr, arith}
use sqlite3_ruby.Values.{Ptr}
use sqlite3_ruby.Env.{Sqlite, Ruby, finalize, step_call, reset_call}
use sqlite3_ruby.Machine.{World, Statement, Settles}
use sqlite3_ruby.Errors.Raise.{rb_sqlite3_raise}
use sqlite3_ruby.Callbacks.{enter}
use sqlite3_ruby.Outcome.{bind-Settles}
use sqlite3_ruby.Callbacks.Settling.{enter-Settles}
use sqlite3_ruby.Statement.Guards.{live_stmt}
use sqlite3_ruby.Statement.Prepare.{sqlite3_rb_close}
use sqlite3_ruby.Statement.Step.{step, step_live, step_result, failed_step, reraise_pending}

-- The statement was given to prepare.
abbrev pub IsPrepared : Ptr → World → Type 0
IsPrepared self w = is_some (w.statements self).db ≡ true

module _ ⦃lib : Sqlite⦄ ⦃rb : Ruby⦄ (self : Ptr) where
  pub live_stmt-Settles : (w : World) → IsPrepared self w → Settles (live_stmt self w)
  unfolding live_stmt
  live_stmt-Settles w prepared = ground (arith, prepared)

  failed_step-Settles :
      (ctx : Statement) (st : Ptr) (value : ℕ) (w : World)
      → Settles (failed_step self ctx st value w)
  unfolding failed_step rb_sqlite3_raise
  failed_step-Settles ctx st value w =
      bind-Settles (enter (reset_call st) w) _ (enter-Settles (reset_call st) w) λ _ v. ground arith

  step_result-Settles :
      (ctx : Statement) (st : Ptr) (value : ℕ) (w : World)
      → Settles (step_result self ctx st value w)
  unfolding step_result
  step_result-Settles ctx st value w = ground (arith, failed_step-Settles ctx st value w)

  step_live-Settles : (st : Ptr) (w : World) → Settles (step_live self st w)
  unfolding step_live reraise_pending
  step_live-Settles st w = elim (Bool-cases (w.statements self).done_p) [
    | inl done ↦ rw done tt
    | inr more ↦ rw more (
        bind-Settles (enter (step_call st) w) _ (enter-Settles (step_call st) w) λ value v.
          bind-Settles (reraise_pending v) _ (ground arith)
            λ _ u. step_result-Settles (w.statements self) st value u)
  ]

  pub step-Settles : (w : World) → IsPrepared self w → Settles (step self w)
  unfolding step
  step-Settles w prepared =
      bind-Settles (live_stmt self w) _ (live_stmt-Settles w prepared)
        λ st v. step_live-Settles st v

  pub close-Settles : (w : World) → Settles (sqlite3_rb_close self w)
  unfolding sqlite3_rb_close
  close-Settles w = elim (Option-cases (w.statements self).st) [
    | inl none_left ↦ rw none_left tt
    | inr (st, e) ↦
        rw e (bind-Settles (enter (finalize st) w) _ (enter-Settles (finalize st) w) λ _ v. tt)
  ]
