-- ===== src/Statement/Closing.antt =====
-- Proofs about sqlite3_finalize in close and in the collection of a statement, with the callbacks that
-- it makes (ext/sqlite3/statement.c).
use sqlite3_ruby.Base.{ℕ, ◌+◌, ◌≡◌, false, none, some, ◌∷◌, arith, ap, ◌∙◌}
use mathlib.Core.Path.{subst}
use sqlite3_ruby.Values.{Ptr, Exception, qfalse}
use sqlite3_ruby.Env.{Sqlite, Ruby, Call, finalize}
use sqlite3_ruby.Machine.{World, Run, ok, raise, final, update}
use sqlite3_ruby.Logs.{finalizes, live, is_safe}
use sqlite3_ruby.Callbacks.{enter}
use sqlite3_ruby.Callbacks.Kept.{Kept, Kept-refl, bind-Kept}
use sqlite3_ruby.Callbacks.Keeping.{enter-Kept}
use sqlite3_ruby.Statement.Prepare.{sqlite3_rb_close, closed_p, statement_deallocate}

-- The struct at `self` after close.
abbrev pub without_handle : Ptr → World → World → World
without_handle self w g = record g {
  statements = update g.statements self (record (w.statements self) { st = none });
}

module _ ⦃lib : Sqlite⦄ ⦃rb : Ruby⦄ where
  -- If the statement has a handle, the callbacks that sqlite3_finalize of it makes return.
  abbrev pub Finishes : Ptr → World → Type 0
  Finishes self w =
      (st : Ptr)
      → (w.statements self).st ≡ some st
      → (status : ℕ) × (g : World) × (enter (finalize st) w ≡ ok status g)

  pub entered_call-Kept :
      {c : Call} {w : World} (r : Run ℕ)
      → enter c w ≡ r
      → Kept (record w { log = c ∷ w.log }) (final r)
  entered_call-Kept {c = c} {w = w} r e =
      subst (λ x. Kept (record w { log = c ∷ w.log }) (final x)) e (enter-Kept c w)

  module _ (self : Ptr) (w : World) where
    pub close_closed : (w.statements self).st ≡ none → final (sqlite3_rb_close self w) ≡ w
    unfolding sqlite3_rb_close
    close_closed e = rw e

    pub close_open :
        (st status : ℕ) (g : World)
        → (w.statements self).st ≡ some st
        → enter (finalize st) w ≡ ok status g
        → sqlite3_rb_close self w ≡ ok self (without_handle self w g)
    unfolding sqlite3_rb_close
    close_open st status g h e = rw (h, e)

    pub deallocate_closed : (w.statements self).st ≡ none → statement_deallocate self w ≡ ok tt w
    unfolding statement_deallocate
    deallocate_closed e = rw (e, statement_deallocate)

    pub deallocate_open :
        (st status : ℕ) (g : World)
        → (w.statements self).st ≡ some st
        → enter (finalize st) w ≡ ok status g
        → statement_deallocate self w ≡ ok tt g
    unfolding statement_deallocate
    deallocate_open st status g h e = rw (h, statement_deallocate) (rw e)

    close_raises :
        (st : Ptr) (e : Exception) (g : World)
        → (w.statements self).st ≡ some st
        → enter (finalize st) w ≡ raise e g
        → sqlite3_rb_close self w ≡ raise e g
    unfolding sqlite3_rb_close
    close_raises st e g h raises = rw (h, raises)

    -- The state after the collection of a statement that still has the handle `st`.
    pub deallocated-Kept :
        (st : Ptr)
        → (w.statements self).st ≡ some st
        → Kept (record w { log = finalize st ∷ w.log }) (final (statement_deallocate self w))
    unfolding statement_deallocate
    deallocated-Kept st h =
        rw (h, statement_deallocate)
          (bind-Kept (enter (finalize st) w) (λ _. ok tt) (record w { log = finalize st ∷ w.log })
            (enter-Kept (finalize st) w) (λ _ v. Kept-refl v))

  -- Where a callback raises while SQLite finalizes a statement, close ends with that exception, and the
  -- statement is not closed: it keeps the handle, which is not live any more. When the statement is
  -- collected, that handle is finalized a second time.
  pub close_interrupted :
      (self st : Ptr) (w g : World) (e : Exception)
      → (w.statements self).st ≡ some st
      → enter (finalize st) w ≡ raise e g
      → let v = final (statement_deallocate self g) in
        (sqlite3_rb_close self w ≡ raise e g)
        × (closed_p self g ≡ ok qfalse g)
        × (live st g.log ≡ false)
        × (finalizes st v.log ≡ finalizes st w.log + 2)
        × (is_safe v.log ≡ false)
  unfolding closed_p
  close_interrupted self st w g e h raises =
      let k = entered_call-Kept (raise e g) raises in
      let held : (g.statements self).st ≡ some st = ap (λ f. (f self).st) k.statements ∙ h in
      let d = deallocated-Kept self g st held in
      (
        close_raises self w st e g h raises,
        rw held,
        ground (arith, k.lives st),
        ground (arith, k.finalized st, d.finalized st),
        ground (arith, k.lives st, d.safe),
      )
