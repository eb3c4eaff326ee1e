-- ===== src/Callbacks/Kept.antt =====
-- What the callbacks of a call leave alone.
use sqlite3_ruby.Base.{◌≡◌, refl, ◌∙◌}
use sqlite3_ruby.Values.{Ptr, Bytes}
use sqlite3_ruby.Env.{Sqlite}
use sqlite3_ruby.Logs.{
  finalizes, live, is_safe, is_open, is_proper, backup_live, is_backup_safe, trace_installed,
  busy_installed, auth_installed, prepares,
}
use sqlite3_ruby.Machine.{
  World, Database, Run, M, ok, ◌>>◌, and_then, raise, fault, out_of_fuel, final,
}

-- The struct up to the deadline of its statement timeout.
abbrev pub timeless : Database → Database
timeless d = record d { stmt_deadline = record { sec = 0; nsec = 0 } }

-- What a callback keeps, of what the methods of statements rely on.
pub record Kept ⦃lib : Sqlite⦄ (w g : World) : Type 0 where
  pub statements : g.statements ≡ w.statements
  pub backups : g.backups ≡ w.backups
  pub remainders : g.remainders ≡ w.remainders
  pub pid : g.pid ≡ w.pid
  pub connections : (q : Ptr) → timeless (g.databases q) ≡ timeless (w.databases q)
  pub finalized : (st : Ptr) → finalizes st g.log ≡ finalizes st w.log
  pub lives : (st : Ptr) → live st g.log ≡ live st w.log
  pub safe : is_safe g.log ≡ is_safe w.log
  pub opens : (c : Ptr) → is_open c g.log ≡ is_open c w.log
  pub proper : is_proper g.log ≡ is_proper w.log
  pub backup_lives : (h : Ptr) → backup_live h g.log ≡ backup_live h w.log
  pub backup_safe : is_backup_safe g.log ≡ is_backup_safe w.log
  pub traces : (c : Ptr) → trace_installed c g.log ≡ trace_installed c w.log
  pub busies : (c : Ptr) → busy_installed c g.log ≡ busy_installed c w.log
  pub auths : (c : Ptr) → auth_installed c g.log ≡ auth_installed c w.log
  pub prepared : (sql : Bytes) → prepares sql g.log ≡ prepares sql w.log

module _ ⦃lib : Sqlite⦄ where
  pub Kept-refl : (w : World) → Kept w w
  Kept-refl w = record {
    statements = refl;
    backups = refl;
    remainders = refl;
    pid = refl;
    connections = λ q. refl;
    finalized = λ st. refl;
    lives = λ st. refl;
    safe = refl;
    opens = λ c. refl;
    proper = refl;
    backup_lives = λ h. refl;
    backup_safe = refl;
    traces = λ c. refl;
    busies = λ c. refl;
    auths = λ c. refl;
    prepared = λ sql. refl;
  }

  pub Kept-trans : {u v w : World} → Kept u v → Kept v w → Kept u w
  Kept-trans h k = record {
    statements = k.statements ∙ h.statements;
    backups = k.backups ∙ h.backups;
    remainders = k.remainders ∙ h.remainders;
    pid = k.pid ∙ h.pid;
    connections = λ q. k.connections q ∙ h.connections q;
    finalized = λ st. k.finalized st ∙ h.finalized st;
    lives = λ st. k.lives st ∙ h.lives st;
    safe = k.safe ∙ h.safe;
    opens = λ c. k.opens c ∙ h.opens c;
    proper = k.proper ∙ h.proper;
    backup_lives = λ p. k.backup_lives p ∙ h.backup_lives p;
    backup_safe = k.backup_safe ∙ h.backup_safe;
    traces = λ c. k.traces c ∙ h.traces c;
    busies = λ c. k.busies c ∙ h.busies c;
    auths = λ c. k.auths c ∙ h.auths c;
    prepared = λ sql. k.prepared sql ∙ h.prepared sql;
  }

  -- Kept by one command and by the next is kept by both.
  pub bind-Kept :
      {A B : Type 0} (m : Run A) (k : A → M B) (w : World)
      → Kept w (final m)
      → ((a : A) (v : World) → Kept v (final (k a v)))
      → Kept w (final (and_then m k))
  bind-Kept (ok a v) k w h rest = Kept-trans h (rest a v)
  bind-Kept (raise e v) k w h rest = h
  bind-Kept (fault v) k w h rest = h
  bind-Kept (out_of_fuel v) k w h rest = h

  pub then-Kept :
      {B : Type 0} (m : M (Unit {0})) (k : M B)
      → ((w : World) → Kept w (final (m w)))
      → ((w : World) → Kept w (final (k w)))
      → (w : World) → Kept w (final ((m >> k) w))
  then-Kept m k h rest w = bind-Kept (m w) (λ _. k) w (h w) (λ a v. rest v)

  -- What holds after all that a call's callbacks may leave, and after what comes next, holds at the end.
  pub kept_then :
      (P : World → Type 0) {A B : Type 0} (m : Run A) (k : A → M B) (w : World)
      → Kept w (final m)
      → ((g : World) → Kept w g → P g)
      → ((a : A) (g : World) → Kept w g → P (final (k a g)))
      → P (final (and_then m k))
  kept_then P (ok a g) k w h left rest = rest a g h
  kept_then P (raise e g) k w h left rest = left g h
  kept_then P (fault g) k w h left rest = left g h
  kept_then P (out_of_fuel g) k w h left rest = left g h
