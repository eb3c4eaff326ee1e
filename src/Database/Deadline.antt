-- ===== src/Database/Deadline.antt =====
-- Proofs about the statement timeout (ext/sqlite3/database.c).
use sqlite3_ruby.Base.{
  ℕ, zero, suc, ◌+◌, ◌≤◌, ◌<◌, ◌∙◌, ◌≡◌, refl, true, false, Bool, List, [], ◌∷◌, arith, any, ltb, ℤ,
  All, ==_refl,
}
use mathlib.Core.Path.{subst}
use native.Mathlib.Decide.{dec_lt}
use sqlite3_ruby.Values.{Ptr}
use sqlite3_ruby.Machine.{World, Run, ok, update}
use sqlite3_ruby.Env.{Timespec}
use sqlite3_ruby.Timespec.{
  timespecisset, timespecafter, timespecisvalid, nanoseconds, timespecafter-lt,
}
use sqlite3_ruby.Database.Timeout.{rb_sqlite3_statement_timeout, progress}

-- The world with another timeout in milliseconds for the struct at `self`.
abbrev pub with_timeout : Ptr → ℤ → World → World
with_timeout self ms w = record w {
  databases = update w.databases self (record (w.databases self) { stmt_timeout = ms });
}

-- What the run answers.
abbrev pub answer : Run Bool → Bool
answer (ok b w) = b
answer _ = false

any_later :
    (start : Timespec) (times : List Timespec)
    → timespecisvalid start ≡ true
    → All (λ now. timespecisvalid now ≡ true) times
    → any (λ now. timespecafter now start) times
      ≡ any (λ now. ltb (nanoseconds start) (nanoseconds now)) times
any_later start [] v vs = refl
any_later start (now ∷ times) v vs =
    rw ((timespecafter-lt now start vs.0 v).0, any_later start times v vs.1)

module _ (self : Ptr) where
  -- Once the deadline is set, it stays, and the first later time stops the statement.
  progress_set :
      (w : World) (start : Timespec) (times : List Timespec)
      → (w.databases self).stmt_deadline ≡ start
      → timespecisset start ≡ true
      → progress self times w ≡ ok (any (λ now. timespecafter now start) times) w
  unfolding progress rb_sqlite3_statement_timeout
  progress_set w start [] e s = refl
  progress_set w start (now ∷ times) e s = ground (arith, progress_set w start times e s)

  -- After a prepare, which clears the deadline, the first call of the progress handler makes its own
  -- time the deadline, whatever milliseconds were set; the statement is interrupted at the first
  -- later call whose clock reads more nanoseconds than the first, and only then.
  pub progress_stops :
      (ms : ℤ) (w : World) (start : Timespec) (times : List Timespec)
      → timespecisset (w.databases self).stmt_deadline ≡ false
      → timespecisset start ≡ true
      → timespecisvalid start ≡ true
      → All (λ now. timespecisvalid now ≡ true) times
      → answer (progress self (start ∷ times) (with_timeout self ms w))
        ≡ any (λ now. ltb (nanoseconds start) (nanoseconds now)) times
  unfolding progress rb_sqlite3_statement_timeout
  progress_stops ms w start times cleared s v vs =
      let set = record (w.databases self) { stmt_timeout = ms; stmt_deadline = start } in
      let g = record w {
        databases =
            update (update w.databases self (record (w.databases self) { stmt_timeout = ms })) self
              set;
      } in
      rw (==_refl self, cleared)
        (rw (progress_set g start times (rw (==_refl self)) s) (any_later start times v vs))

-- What the clock reads at `n` calls of the progress handler, from the call `i` on.
abbrev pub readings : (ℕ → Timespec) → ℕ → ℕ → List Timespec
readings clock i zero = []
readings clock i (suc n) = clock i ∷ readings clock (suc i) n

-- A clock that passes every time.
abbrev pub Grows : (ℕ → Timespec) → Type 0
Grows clock = (bound : ℕ) → (m : ℕ) × (bound < nanoseconds (clock m))

readings_valid :
    (clock : ℕ → Timespec) (i n : ℕ)
    → ((m : ℕ) → timespecisvalid (clock m) ≡ true)
    → All (λ now. timespecisvalid now ≡ true) (readings clock i n)
readings_valid clock i zero v = tt
readings_valid clock i (suc n) v = (v i, readings_valid clock (suc i) n v)

any_reading :
    (clock : ℕ → Timespec) (p : Timespec → Bool) (n i m : ℕ)
    → i ≤ m
    → m < i + n
    → p (clock m) ≡ true
    → any p (readings clock i n) ≡ true
any_reading clock p zero i m low high e = absurd (omega arith)
any_reading clock p (suc n) i m low high e = elim (dec_lt i m) [
  | yes later ↦ ground (arith, any_reading clock p n (suc i) m (omega arith) (omega arith) e)
  | no same ↦
      let here : m ≡ i = omega arith in ground (arith, subst (λ (k : ℕ). p (clock k) ≡ true) here e)
]

-- After a prepare, with valid times from a clock that passes every time, the progress handler
-- interrupts the statement after finitely many calls, whatever timeout was set.
pub progress_interrupts :
    (self : Ptr) (ms : ℤ) (w : World) (start : Timespec) (clock : ℕ → Timespec)
    → timespecisset (w.databases self).stmt_deadline ≡ false
    → timespecisset start ≡ true
    → timespecisvalid start ≡ true
    → ((m : ℕ) → timespecisvalid (clock m) ≡ true)
    → Grows clock
    → (n : ℕ) × (answer (progress self (start ∷ readings clock 0 n) (with_timeout self ms w))
        ≡ true)
progress_interrupts self ms w start clock cleared s v valid grows =
    let (m, later) = grows (nanoseconds start) in
    (
      suc m,
      progress_stops self ms w start (readings clock 0 (suc m)) cleared s v
            (readings_valid clock 0 (suc m) valid)
          ∙ any_reading clock (λ now. ltb (nanoseconds start) (nanoseconds now)) (suc m) 0 m
              (omega arith) (omega arith) (ground arith),
    )
