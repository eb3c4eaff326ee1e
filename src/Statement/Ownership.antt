-- ===== src/Statement/Ownership.antt =====
-- Proofs about the handles of several statements at once (ext/sqlite3/statement.c): each operation
-- keeps every handle with one statement, and uses handles only while they are live.
use sqlite3_ruby.Base.{
  Option-cases, ◌≡◌, refl, Bool, true, false, Option, none, some, ◌∷◌, arith, ap, inl, inr,
}
use sqlite3_ruby.Values.{Ptr, Value}
use sqlite3_ruby.Env.{Sqlite, Ruby, Log, finalize}
use sqlite3_ruby.Machine.{World, Statement, ok, final, update}
use sqlite3_ruby.Callbacks.Kept.{Kept}
use sqlite3_ruby.Logs.{live, is_safe}
use sqlite3_ruby.Errors.Raise.{rb_sqlite3_raise}
use sqlite3_ruby.Statement.Guards.{live_stmt}
use sqlite3_ruby.Statement.Prepare.{
  sqlite3_rb_close, statement_deallocate, reset_bang, clear_bindings_bang,
}
use sqlite3_ruby.Statement.Step.{step}
use sqlite3_ruby.Statement.Bind.{Pack, bind_param}
use sqlite3_ruby.Statement.Invariant.{IsSteady, step_keeps, reset_bang_keeps}
use sqlite3_ruby.Statement.Closing.{
  Finishes, entered_call-Kept, close_closed, close_open, deallocate_closed, deallocate_open,
}

-- xfree: the struct at `self` is given back, and its memory tells nothing any more.
abbrev pub given_back : Ptr → World → World
given_back self w = record w {
  statements = update w.statements self (record { st = none; db = none; done_p = false });
}

-- The test of a handle that a statement may have.
abbrev pub live_slot : ⦃lib : Sqlite⦄ → Option Ptr → Log → Bool
live_slot none log = true
live_slot (some st) log = live st log

module _ ⦃lib : Sqlite⦄ where
  -- The handles that statements have are live, each belongs to one statement, and no call so far used
  -- a handle that was not live.
  pub record IsOwned (w : World) : Type 0 where
    pub held : (p st : Ptr) → (w.statements p).st ≡ some st → live st w.log ≡ true
    pub alone :
        (p q st : Ptr) → (w.statements p).st ≡ some st → (w.statements q).st ≡ some st → p ≡ q
    pub safe : is_safe w.log ≡ true

  slot_live :
      (s : Option Ptr) (log : Log)
      → ((st : Ptr) → s ≡ some st → live st log ≡ true)
      → live_slot s log ≡ true
  slot_live none log h = refl
  slot_live (some st) log h = h st refl

  pub slot_held : (w : World) (p : Ptr) → IsOwned w → live_slot (w.statements p).st w.log ≡ true
  slot_held w p o = slot_live (w.statements p).st w.log (o.held p)

  -- Something that leaves the statements alone and makes no call with a statement's handle, nor a
  -- prepare.
  pub record Apart (w g : World) : Type 0 where
    pub statements : g.statements ≡ w.statements
    pub lives : (st : Ptr) → live st g.log ≡ live st w.log
    pub unused : is_safe g.log ≡ is_safe w.log

  pub Apart-IsOwned : (w g : World) → Apart w g → IsOwned w → IsOwned g
  Apart-IsOwned w g k o = record {
    held = λ p st h. ground (arith, k.lives st, o.held p st (rw (← k.statements) h));
    alone = λ p q st h i. o.alone p q st (rw (← k.statements) h) (rw (← k.statements) i);
    safe = rw k.unused o.safe;
  }

  -- So do the callbacks of a call.
  pub Kept-IsOwned : (w g : World) → Kept w g → IsOwned w → IsOwned g
  Kept-IsOwned w g k =
      Apart-IsOwned w g (record { statements = k.statements; lives = k.lives; unused = k.safe })

  IsOwned-IsSteady : (self : Ptr) → IsSteady IsOwned self
  IsOwned-IsSteady self = record {
    steps = λ st w h o. record {
      held = o.held;
      alone = o.alone;
      safe = ground (arith, o.held self st, o.safe);
    };
    resets = λ st w h o. record {
      held = o.held;
      alone = o.alone;
      safe = ground (arith, o.held self st, o.safe);
    };
    keeps = Kept-IsOwned;
    quiets = λ w o. record { held = o.held; alone = o.alone; safe = o.safe };
    marks = λ d w o. record {
      held = λ p s k. ground (arith, o.held p s, o.held self s);
      alone = λ p q s k l. ground (arith, o.alone p q s);
      safe = o.safe;
    };
  }

  -- The handle `st` of the statement was given to sqlite3_finalize, and the statement gives it up.
  given_up-IsOwned :
      (self st : Ptr) (ctx : Statement) (w g : World)
      → Kept (record w { log = finalize st ∷ w.log }) g
      → (w.statements self).st ≡ some st
      → ctx.st ≡ none
      → IsOwned w
      → IsOwned (record g { statements = update g.statements self ctx })
  given_up-IsOwned self st ctx w g k h e o = record {
    held = λ p s l.
        ground (arith, ap (λ f. (f p).st) k.statements, k.lives s, o.held p s, o.alone p self s);
    alone = λ p q s l m.
        ground
          (arith, ap (λ f. (f p).st) k.statements, ap (λ f. (f q).st) k.statements, o.alone p q s);
    safe = ground (arith, k.safe, o.held self st, o.safe);
  }

  module _ ⦃rb : Ruby⦄ where
    pub step-IsOwned : (self : Ptr) (w : World) → IsOwned w → IsOwned (final (step self w))
    step-IsOwned self w o = step_keeps IsOwned self (IsOwned-IsSteady self) w o

    pub reset-IsOwned : (self : Ptr) (w : World) → IsOwned w → IsOwned (final (reset_bang self w))
    reset-IsOwned self w o = reset_bang_keeps IsOwned self (IsOwned-IsSteady self) w o

    pub close-IsOwned :
        (self : Ptr) (w : World)
        → Finishes self w
        → IsOwned w
        → IsOwned (final (sqlite3_rb_close self w))
    close-IsOwned self w finishes o = elim (Option-cases (w.statements self).st) [
      | inl closed ↦ rw (close_closed self w closed) o
      | inr (st, h) ↦
          let (status, g, entered) = finishes st h in
          rw (close_open self w st status g h entered)
            (given_up-IsOwned self st _ w g (entered_call-Kept (ok status g) entered) h refl o)
    ]

    -- The collection, with the struct given back to the allocator.
    pub collect-IsOwned :
        (self : Ptr) (w : World)
        → Finishes self w
        → IsOwned w
        → IsOwned (given_back self (final (statement_deallocate self w)))
    collect-IsOwned self w finishes o = elim (Option-cases (w.statements self).st) [
      | inl closed ↦ rw (deallocate_closed self w closed) (record {
        held = λ p s k. ground (arith, o.held p s);
        alone = λ p q s k l. ground (arith, o.alone p q s);
        safe = o.safe;
      })
      | inr (st, h) ↦
          let (status, g, entered) = finishes st h in
          rw (deallocate_open self w st status g h entered)
            (given_up-IsOwned self st _ w g (entered_call-Kept (ok status g) entered) h refl o)
    ]

    pub clear-IsOwned :
        (self : Ptr) (w : World) → IsOwned w → IsOwned (final (clear_bindings_bang self w))
    unfolding clear_bindings_bang live_stmt
    clear-IsOwned self w o = record {
      held = λ p s k. ground (arith, o.held p s);
      alone = λ p q s k l. ground (arith, o.alone p q s);
      safe = ground (arith, slot_held w self o, o.safe);
    }

    pub bind-IsOwned :
        (pack : Pack) (self : Ptr) (key value : Value) (w : World)
        → IsOwned w
        → IsOwned (final (bind_param pack self key value w))
    unfolding bind_param live_stmt rb_sqlite3_raise
    bind-IsOwned pack self key value w o = record {
      held = λ p s k. ground (arith, o.held p s);
      alone = λ p q s k l. ground (arith, o.alone p q s);
      safe = ground (arith, slot_held w self o, o.safe);
    }
