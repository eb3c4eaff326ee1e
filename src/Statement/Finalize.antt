-- ===== src/Statement/Finalize.antt =====
-- How often a statement's handle is finalized (ext/sqlite3/statement.c).
use sqlite3_ruby.Base.{
  Option-cases, ℕ, ◌+◌, ◌≡◌, none, some, List, [], ◌∷◌, arith, inl, inr, if◌then◌else◌, is_some,
}
use sqlite3_ruby.Values.{Ptr, Value}
use sqlite3_ruby.Env.{Sqlite, Ruby}
use sqlite3_ruby.Callbacks.Kept.{Kept}
use sqlite3_ruby.Logs.{finalizes}
use sqlite3_ruby.Machine.{World, ok, final}
use sqlite3_ruby.Statement.Guards.{live_stmt}
use sqlite3_ruby.Statement.Prepare.{
  sqlite3_rb_close, statement_deallocate, reset_bang, clear_bindings_bang,
}
use sqlite3_ruby.Statement.Invariant.{IsSteady, step_keeps, reset_bang_keeps}
use sqlite3_ruby.Statement.Closing.{
  Finishes, entered_call-Kept, close_closed, close_open, deallocate_closed, deallocate_open,
}
use sqlite3_ruby.Statement.Step.{step}
use sqlite3_ruby.Statement.Bind.{Pack, bind_param}
use sqlite3_ruby.Errors.Raise.{rb_sqlite3_raise}

-- The methods of a statement that change it, apart from the preparation.
pub data Use : Type 0 where
  use_step use_close use_reset use_clear : Use
  use_bind : Value → Value → Use

-- 1 while the statement holds the handle.
abbrev pub holds : Ptr → World → ℕ
holds self w = if is_some (w.statements self).st then 1 else 0

module _ ⦃lib : Sqlite⦄ ⦃rb : Ruby⦄ (pack : Pack) (self : Ptr) where
  -- The state after a method, whether it returned or raised.
  unfoldable pub after : Use → World → World
  after use_step w = final (step self w)
  after use_close w = final (sqlite3_rb_close self w)
  after use_reset w = final (reset_bang self w)
  after use_clear w = final (clear_bindings_bang self w)
  after (use_bind key value) w = final (bind_param pack self key value w)

  unfoldable pub after_all : List Use → World → World
  unfolding after
  after_all [] w = w
  after_all (u ∷ us) w = after_all us (after u w)

  -- What a statement that was prepared with the handle `st` keeps.
  pub record Owns (st : Ptr) (w : World) : Type 0 where
    pub handle : (w.statements self).st ≡ (if is_some (w.statements self).st then some st else none)
    pub once : finalizes st w.log + holds self w ≡ 1

  -- The calls of the callbacks leave the handle alone.
  Owns-Kept : (st : Ptr) {w g : World} → Kept w g → Owns st w → Owns st g
  Owns-Kept st {w} {g} k o = record {
    handle = rw k.statements o.handle;
    once = rw (k.statements, k.finalized st) o.once;
  }

  Owns-IsSteady : (st : Ptr) → IsSteady (Owns st) self
  Owns-IsSteady st = record {
    steps = λ p w h o. record { handle = o.handle; once = o.once };
    resets = λ p w h o. record { handle = o.handle; once = o.once };
    keeps = λ w g k. Owns-Kept st k;
    quiets = λ w o. record { handle = o.handle; once = o.once };
    marks = λ d w o. ground arith;
  }

  close-Owns :
      (st : Ptr) (w : World)
      → Finishes self w
      → Owns st w
      → Owns st (final (sqlite3_rb_close self w))
  close-Owns st w finishes o = elim (Option-cases (w.statements self).st) [
    | inl closed ↦ rw (close_closed self w closed) o
    | inr (p, held) ↦
        let (status, g, entered) = finishes p held in
        let k = entered_call-Kept (ok status g) entered in
        rw (close_open self w p status g held entered) (record {
          handle = ground arith;
          once = ground (arith, k.finalized st, o.handle, o.once);
        })
  ]

  -- The callbacks that SQLite makes while it finalizes the statement return.
  abbrev pub Calm : Use → World → Type 0
  Calm use_close w = Finishes self w
  Calm _ w = Unit {0}

  -- So in each method of a sequence, and in the collection after it.
  abbrev pub AllCalm : List Use → World → Type 0
  AllCalm [] w = Finishes self w
  AllCalm (u ∷ us) w = Calm u w × AllCalm us (after u w)

  after-Owns : (st : Ptr) (u : Use) (w : World) → Calm u w → Owns st w → Owns st (after u w)
  unfolding after clear_bindings_bang bind_param live_stmt rb_sqlite3_raise
  after-Owns st use_close w calm o = close-Owns st w calm o
  after-Owns st use_reset w calm o = reset_bang_keeps (Owns st) self (Owns-IsSteady st) w o
  after-Owns st use_clear w calm o = ground arith
  after-Owns st use_step w calm o = step_keeps (Owns st) self (Owns-IsSteady st) w o
  after-Owns st (use_bind key value) w calm o = ground arith

  -- The collection leaves one call of sqlite3_finalize.
  collected_once :
      (st : Ptr) (w : World)
      → Finishes self w
      → Owns st w
      → finalizes st (final (statement_deallocate self w)).log ≡ 1
  collected_once st w finishes o = elim (Option-cases (w.statements self).st) [
    | inl closed ↦ rw (deallocate_closed self w closed) (ground (arith, o.once))
    | inr (p, held) ↦
        let (status, g, entered) = finishes p held in
        let k = entered_call-Kept (ok status g) entered in
        rw (deallocate_open self w p status g held entered)
          (ground (arith, k.finalized st, o.handle, o.once))
  ]

  all_once :
      (st : Ptr) (us : List Use) (w : World)
      → AllCalm us w
      → Owns st w
      → finalizes st (final (statement_deallocate self (after_all us w))).log ≡ 1
  unfolding after_all
  all_once st [] w calm o = collected_once st w calm o
  all_once st (u ∷ us) w calm o = all_once st us (after u w) calm.1 (after-Owns st u w calm.0 o)

  -- The handle of a statement is finalized exactly once in its life, where no callback raises while
  -- SQLite finalizes it: for a statement that holds the handle, which was not finalized before, after
  -- any sequence of steps, binds, resets and closes with their callbacks, whether they return or
  -- raise, the deallocation leaves one call of sqlite3_finalize of it.
  pub finalized_once :
      (st : Ptr) (us : List Use) (w : World)
      → AllCalm us w
      → (w.statements self).st ≡ some st
      → finalizes st w.log ≡ 0
      → finalizes st (final (statement_deallocate self (after_all us w))).log ≡ 1
  finalized_once st us w calm open_stmt never = all_once st us w calm (ground arith)
