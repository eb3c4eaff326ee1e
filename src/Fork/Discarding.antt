-- ===== src/Fork/Discarding.antt =====
-- Proofs about discard of lib/sqlite3/fork_safety.rb over close (ext/sqlite3/database.c).
use sqlite3_ruby.Base.{
  ℕ, ◌+◌, ◌≡◌, ◌≢◌, ◌⊎◌, sym, ==_refl, refl, Bool, true, false, not, ◌||◌, ◌&&◌, List, [], ◌∷◌,
  ◌==◌, if◌then◌else◌, is_some, any, Bool-cases, inl, inr, arith, ◌∙◌,
}
use mathlib.Core.Path.{subst}
use sqlite3_ruby.Values.{Ptr, rtest, qtrue, qfalse}
use sqlite3_ruby.Env.{Sqlite}
use sqlite3_ruby.Machine.{World, Database, ok, final}
use sqlite3_ruby.Database.Discard.{closed_p, sqlite3_rb_close, close_or_discard_db}
use sqlite3_ruby.Database.Lifecycle.{closes, HasFiles}
use sqlite3_ruby.Database.Close.{closes_properly, ended, Ended, close_or_discard_db-Ended}
use sqlite3_ruby.Fork.Tracked.{WeakRef, alive, collected, lost, ForkSafety, discard_all, discard}

-- Whether a live object at `p` is tracked.
abbrev pub tracks : Ptr → List WeakRef → Bool
tracks p [] = false
tracks p (alive q ∷ dbs) = (q == p) || tracks p dbs
tracks p (_ ∷ dbs) = tracks p dbs

-- Whether it is one that discard closes.
abbrev pub is_writable : (Ptr → Bool) → World → WeakRef → Bool
is_writable readonly w (alive p) = is_some (w.databases p).db && not (readonly p)
is_writable readonly w _ = false

-- A close of a closed connection changes nothing.
ended_closed : (d : Database) (pid : ℕ) → is_some d.db ≡ false → ended d pid ≡ d
ended_closed d pid h = ground (arith, h)

ended-ended : (d : Database) (pid : ℕ) → ended (ended d pid) pid ≡ ended d pid
ended-ended d pid = ended_closed (ended d pid) pid (ground arith)

twice :
    (d : Database) (pid : ℕ) (again : Bool)
    → (if again && true then ended (ended d pid) pid else ended d pid) ≡ ended d pid
twice d pid true = ended-ended d pid
twice d pid false = refl

-- A close does not change by whom the connection may be closed.
ended_closes : (d : Database) (pid : ℕ) → closes_properly (ended d pid) pid ≡ closes_properly d pid
ended_closes d pid = ground arith

address_cases : (p q : Ptr) → (p ≡ q) ⊎ (p ≢ q)
address_cases p q = ground arith

test_ne : (p q : Ptr) → p ≢ q → (p == q) ≡ false
test_ne p q h = ground arith

-- What discard does to the states from `w` to `g`, with `n` warnings: of the connections that are
-- tracked and not read-only, each is ended as by close, and every other is as it was. No connection is
-- closed by sqlite3_close_v2, if each of those was opened for writing by another process. There is one
-- warning if one of them was open and `warned` is not set, and none otherwise.
pub record Swept (readonly : Ptr → Bool) (refs : List WeakRef) (warned : Bool) (w : World) (n : ℕ)
    (g : World) : Type 0 where
  pub structs :
      (p : Ptr)
      → g.databases p
        ≡ (if tracks p refs && not (readonly p) then ended (w.databases p) w.pid else w.databases p)
  pub pid : g.pid ≡ w.pid
  pub silent :
      ((p : Ptr)
        → tracks p refs ≡ true
        → readonly p ≡ false
        → closes_properly (w.databases p) w.pid ≡ false)
      → closes g.log ≡ closes w.log
  pub warnings : n ≡ (if warned then 0 else if any (is_writable readonly w) refs then 1 else 0)

module _ (readonly : Ptr → Bool) (db : Ptr) (refs : List WeakRef) (warned : Bool) (w : World) where
  kept :
      (p : Ptr)
      → (is_some (w.databases p).db && not (readonly p)) ≡ false
      → (tracked : Bool)
      → (if tracked && not (readonly p) then ended (w.databases p) w.pid else w.databases p)
        ≡ w.databases p
  kept p h tracked = ground (arith, h, ended_closed (w.databases p) w.pid)

  -- The object at `db` is skipped.
  skipped :
      {n : ℕ} {g : World}
      → (is_some (w.databases db).db && not (readonly db)) ≡ false
      → Swept readonly refs warned w n g
      → Swept readonly (alive db ∷ refs) warned w n g
  skipped {n} {g} skip s = record {
    structs = λ p. elim (address_cases db p) [
      | inl e ↦ rw (← e) (s.structs db ∙ kept db skip (tracks db refs) ∙ sym (kept db skip _))
      | inr other ↦ rw (test_ne db p other) (s.structs p)
    ];
    pid = s.pid;
    silent = λ h. s.silent (λ p t r. h p (ground (arith, t)) r);
    warnings = ground (arith, skip, s.warnings);
  }

  module _ (closing : (is_some (w.databases db).db && not (readonly db)) ≡ true) {v : World}
      (out : Ended w db (ok tt v)) where
    writable_here : readonly db ≡ false
    writable_here = ground (arith, closing)

    ended_still :
        ((p : Ptr)
          → tracks p (alive db ∷ refs) ≡ true
          → readonly p ≡ false
          → closes_properly (w.databases p) w.pid ≡ false)
        → (p : Ptr) → (db ≡ p) ⊎ (db ≢ p)
        → tracks p refs ≡ true
        → readonly p ≡ false
        → closes_properly (v.databases p) v.pid ≡ false
    ended_still h p (inl e) t r =
        rw (← e, out.struct, out.pid, ended_closes (w.databases db) w.pid)
          (h db (rw (==_refl db)) writable_here)
    ended_still h p (inr other) t r =
        rw (out.others p (λ e. other (sym e)), out.pid) (h p (ground (arith, t)) r)

    -- The object at `db` is closed, and `v` is the state then.
    swept :
        {n : ℕ} {g : World}
        → Swept readonly refs true v n g
        → Swept readonly (alive db ∷ refs) warned w ((if warned then 0 else 1) + n) g
    swept {n} {g} s = record {
      structs = λ p. elim (address_cases db p) [
        | inl e ↦ rw (← e) (
            s.structs db
            ∙ rw (out.struct, out.pid, writable_here, ==_refl db)
                (twice (w.databases db) w.pid (tracks db refs)))
        | inr other ↦
            rw (test_ne db p other, ← out.others p (λ e. other (sym e)), ← out.pid) (s.structs p)
      ];
      pid = s.pid ∙ out.pid;
      silent = λ h.
          s.silent (λ p t r. ended_still h p (address_cases db p) t r)
          ∙ out.close_calls
          ∙ ground (arith, h db (rw (==_refl db)) writable_here);
      warnings = ground (arith, closing, s.warnings);
    }

-- The test of discard.
skip_test :
    (is_open is_readonly : Bool)
    → (rtest (if is_open then qfalse else qtrue) || is_readonly) ≡ not (is_open && not is_readonly)
skip_test true true = refl
skip_test true false = refl
skip_test false is_readonly = refl

module _ ⦃lib : Sqlite⦄ (files : (db : Ptr) → HasFiles lib db) (readonly : Ptr → Bool) where
  close_ok :
      (db : Ptr) (w : World) → sqlite3_rb_close db w ≡ ok db (final (close_or_discard_db db w))
  unfolding sqlite3_rb_close
  close_ok db w = rw (close_or_discard_db-Ended files db w).returns

  closed_Ended : (db : Ptr) (w : World) → Ended w db (ok tt (final (close_or_discard_db db w)))
  closed_Ended db w =
      let out = close_or_discard_db-Ended files db w in subst (λ r. Ended w db r) out.returns out

  sweep :
      (refs : List WeakRef) (warned : Bool) (w : World)
      → (n : ℕ) × (g : World) × (discard_all readonly warned refs w ≡ ok n g)
        × Swept readonly refs warned w n g
  unfolding discard_all closed_p
  sweep [] warned w = (
    0,
    w,
    refl,
    record { structs = λ p. refl; pid = refl; silent = λ h. refl; warnings = ground arith },
  )
  sweep (collected ∷ refs) warned w =
      let (n, g, e, s) = sweep refs warned w in
      (
        n,
        g,
        e,
        record { structs = s.structs; pid = s.pid; silent = s.silent; warnings = s.warnings },
      )
  sweep (lost ∷ refs) warned w =
      let (n, g, e, s) = sweep refs warned w in
      (
        n,
        g,
        e,
        record { structs = s.structs; pid = s.pid; silent = s.silent; warnings = s.warnings },
      )
  sweep (alive db ∷ refs) warned w =
      elim (Bool-cases (is_some (w.databases db).db && not (readonly db))) [
        | inl closing ↦
            let v = final (close_or_discard_db db w) in
            let (n, g, e, s) = sweep refs true v in
            (
              (if warned then 0 else 1) + n,
              g,
              rw (skip_test (is_some (w.databases db).db) (readonly db), closing, close_ok db w)
                  (rw e),
              swept readonly db refs warned w closing (closed_Ended db w) s,
            )
        | inr skip ↦
            let (n, g, e, s) = sweep refs warned w in
            (
              n,
              g,
              rw (skip_test (is_some (w.databases db).db) (readonly db), skip) e,
              skipped readonly db refs warned w skip s,
            )
      ]

  -- discard of fork_safety.rb, where sqlite3_db_name ends and a successful sqlite3_file_control stores a
  -- file: it returns and forgets all that it tracked. Of the objects that are tracked, alive and not
  -- read-only, each is ended as by close, and every other struct is as it was. If each of them was opened
  -- for writing by another process, sqlite3_close_v2 is not called. It warns once if one of them was open
  -- and the warnings are not suppressed, and not at all otherwise.
  pub discard-Swept :
      (f : ForkSafety) (w : World)
      → (n : ℕ) × (g : World) × (discard readonly f w ≡ ok (n, record f { databases = [] }) g)
        × Swept readonly f.databases f.suppress w n g
  unfolding discard
  discard-Swept f w = let (n, g, e, s) = sweep f.databases f.suppress w in (n, g, rw e, s)
