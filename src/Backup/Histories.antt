-- ===== src/Backup/Histories.antt =====
-- The lives of all the backups of a program (ext/sqlite3/backup.c): objects are allocated, set up,
-- stepped, finished and collected in any order.
use sqlite3_ruby.Base.{
  Option-cases, ◌≡◌, ◌≢◌, refl, Bool, true, false, ◌&&◌, Option, none, some, [], ◌∷◌, arith, inl,
  inr, is_some, ℤ, ==_refl,
}
use sqlite3_ruby.Values.{Ptr, Bytes, Value, Answer-cases}
use sqlite3_ruby.Env.{Sqlite, Ruby, Log, backup_init, backup_step, backup_finish}
use sqlite3_ruby.Machine.{World, final, pure, update, ◌>>◌}
use sqlite3_ruby.Structs.{backup_type, collect}
use sqlite3_ruby.Logs.{backup_live, is_backup_safe}
use sqlite3_ruby.Callbacks.{enter}
use sqlite3_ruby.Callbacks.Kept.{Kept}
use sqlite3_ruby.Callbacks.Keeping.{enter-Kept}
use sqlite3_ruby.Errors.Raise.{rb_sqlite3_raise}
use sqlite3_ruby.Backup.Methods.{allocate, initialize, keep_handle, step, finish}

-- xfree: the struct at `p` is given back.
abbrev pub without_backup : Ptr → World → World
without_backup p w = record w { backups = update w.backups p (record { p = none }) }

-- sqlite3_backup_init gives a handle that is not in use. (Its documentation: a new sqlite3_backup.)
abbrev pub IsFreshBackup : Sqlite → Type 0
IsFreshBackup lib =
    (log : Log) (dst : Ptr) (to : Bytes) (src : Ptr) (from : Bytes) (h : Ptr)
    → lib.handle (backup_init dst to src from ∷ log) ≡ some h
    → backup_live ⦃lib = lib⦄ h log ≡ false

abbrev backup_slot : ⦃lib : Sqlite⦄ → Option Ptr → Log → Bool
backup_slot none log = true
backup_slot (some h) log = backup_live h log

module _ ⦃lib : Sqlite⦄ where
  -- The handles that backups have are live, each belongs to one backup, and no call so far used a
  -- handle that was not live.
  pub record HoldsBackups (w : World) : Type 0 where
    pub held : (p h : Ptr) → (w.backups p).p ≡ some h → backup_live h w.log ≡ true
    pub alone : (p q h : Ptr) → (w.backups p).p ≡ some h → (w.backups q).p ≡ some h → p ≡ q
    pub safe : is_backup_safe w.log ≡ true

  -- Something that leaves the backups alone and makes no call of sqlite3_backup_.
  pub record BackupsApart (w g : World) : Type 0 where
    pub backups : g.backups ≡ w.backups
    pub lives : (h : Ptr) → backup_live h g.log ≡ backup_live h w.log
    pub unused : is_backup_safe g.log ≡ is_backup_safe w.log

  BackupsApart-HoldsBackups : (w g : World) → BackupsApart w g → HoldsBackups w → HoldsBackups g
  BackupsApart-HoldsBackups w g k o = record {
    held = λ p h e. ground (arith, k.lives h, o.held p h (rw (← k.backups) e));
    alone = λ p q h e f. o.alone p q h (rw (← k.backups) e) (rw (← k.backups) f);
    safe = rw k.unused o.safe;
  }

module _ ⦃lib : Sqlite⦄ ⦃rb : Ruby⦄ where
  -- One operation of one backup, or something else.
  pub data BackupStep : World → World → Type 0 where
    allocated : {w : World} (p : Ptr) → BackupStep w (final (allocate p w))
    set_up :
        {w : World} (p dst src : Ptr) (dstname srcname : Bytes)
        → BackupStep w (final (initialize p dst dstname src srcname w))
    stepped : {w : World} (p : Ptr) (nPage : Value) → BackupStep w (final (step p nPage w))
    finished : {w : World} (p : Ptr) → BackupStep w (final (finish p w))
    collected :
        {w : World} (p : Ptr) → BackupStep w (without_backup p (final (collect backup_type p w)))
    elsewhere : {w g : World} → BackupsApart w g → BackupStep w g

  pub data BackupHistory : World → World → Type 0 where
    start : {w : World} → BackupHistory w w
    next : {u v w : World} → BackupHistory u v → BackupStep v w → BackupHistory u w

  without_backup-HoldsBackups :
      (p : Ptr) (w : World) → HoldsBackups w → HoldsBackups (without_backup p w)
  without_backup-HoldsBackups p w o = record {
    held = λ q h e. ground (arith, o.held q h);
    alone = λ q r h e f. ground (arith, o.alone q r h);
    safe = o.safe;
  }

  allocate-HoldsBackups :
      (p : Ptr) (w : World) → HoldsBackups w → HoldsBackups (final (allocate p w))
  unfolding allocate
  allocate-HoldsBackups p w o = without_backup-HoldsBackups p w o

  -- What follows sqlite3_backup_init; the handle that it gave, if any, is of no other backup.
  keep_handle-HoldsBackups :
      (p ddb : Ptr) (given : Option Ptr) (g : World)
      → HoldsBackups g
      → ((h : Ptr) → given ≡ some h → backup_live h g.log ≡ true)
      → ((q h : Ptr) → given ≡ some h → ¬ ((g.backups q).p ≡ some h))
      → HoldsBackups (final ((keep_handle p ddb given >> pure p) g))
  unfolding keep_handle rb_sqlite3_raise
  keep_handle-HoldsBackups p ddb none g o lives new = ground (arith, o)
  keep_handle-HoldsBackups p ddb (some given) g o lives new = record {
    held = λ q h e. ground (arith, o.held q h, lives h);
    alone = λ q r h e f. ground (arith, o.alone q r h, new q h, new r h);
    safe = o.safe;
  }

  -- The call is made.
  called-HoldsBackups :
      (dst src : Ptr) (dstname srcname : Bytes) (w : World)
      → HoldsBackups w
      → HoldsBackups (record w { log = backup_init dst dstname src srcname ∷ w.log })
  called-HoldsBackups dst src dstname srcname w o = record {
    held = λ q h e. ground (arith, o.held q h e);
    alone = o.alone;
    safe = o.safe;
  }

  initialize_between :
      (p dst src ddb sdb : Ptr) (dstname srcname : Bytes) (w : World)
      → (w.databases dst).db ≡ some ddb
      → (w.databases src).db ≡ some sdb
      → let log = backup_init ddb dstname sdb srcname ∷ w.log in
        initialize p dst dstname src srcname w
        ≡ (keep_handle p ddb (lib.handle log) >> pure p) (record w { log = log })
  unfolding initialize
  initialize_between p dst src ddb sdb dstname srcname w to from = rw (to, from)

  initialize_refused :
      (p dst src : Ptr) (dstname srcname : Bytes) (w : World)
      → (is_some (w.databases dst).db && is_some (w.databases src).db) ≡ false
      → final (initialize p dst dstname src srcname w) ≡ w
  unfolding initialize
  initialize_refused p dst src dstname srcname w h = ground arith

  initialize-HoldsBackups :
      (p dst src : Ptr) (dstname srcname : Bytes) (w : World)
      → IsFreshBackup lib
      → HoldsBackups w
      → HoldsBackups (final (initialize p dst dstname src srcname w))
  initialize-HoldsBackups p dst src dstname srcname w fresh o =
      let refused = initialize_refused p dst src dstname srcname w in
      elim (Option-cases (w.databases dst).db) [
        | inl e ↦ rw (refused (rw e)) o
        | inr (ddb, to) ↦ elim (Option-cases (w.databases src).db) [
          | inl e ↦ rw (refused (rw (to, e))) o
          | inr (sdb, from) ↦
              let log = backup_init ddb dstname sdb srcname ∷ w.log in
              rw (initialize_between p dst src ddb sdb dstname srcname w to from) (
                keep_handle-HoldsBackups p ddb (lib.handle log) (record w { log = log })
                  (called-HoldsBackups ddb sdb dstname srcname w o)
                  (λ h e. ground (arith, e, ==_refl h))
                  λ q h e k. ground (arith, o.held q h k, fresh w.log ddb dstname sdb srcname h e))
        ]
      ]

  slot_live : (w : World) (p : Ptr) → HoldsBackups w → backup_slot (w.backups p).p w.log ≡ true
  slot_live w p o = elim (Option-cases (w.backups p).p) [
    | inl e ↦ rw e
    | inr (h, e) ↦ rw e (o.held p h e)
  ]

  finish-HoldsBackups : (p : Ptr) (w : World) → HoldsBackups w → HoldsBackups (final (finish p w))
  unfolding finish
  finish-HoldsBackups p w o = record {
    held = λ q h e. ground (arith, o.held q h, o.alone p q h);
    alone = λ q r h e f. ground (arith, o.alone q r h);
    safe = ground (arith, slot_live w p o, o.safe);
  }

  Kept-HoldsBackups : (w g : World) → Kept w g → HoldsBackups w → HoldsBackups g
  Kept-HoldsBackups w g k =
      BackupsApart-HoldsBackups w g
        (record { backups = k.backups; lives = k.backup_lives; unused = k.backup_safe })

  stepped-HoldsBackups :
      (h : Ptr) (n : ℤ) (w : World)
      → backup_live h w.log ≡ true
      → HoldsBackups w
      → HoldsBackups (final (enter (backup_step h n) w))
  stepped-HoldsBackups h n w live o =
      Kept-HoldsBackups (record w { log = backup_step h n ∷ w.log }) _
        (enter-Kept (backup_step h n) w)
        (record { held = o.held; alone = o.alone; safe = ground (arith, o.safe) })

  step-HoldsBackups :
      (p : Ptr) (nPage : Value) (w : World) → HoldsBackups w → HoldsBackups (final (step p nPage w))
  unfolding step
  step-HoldsBackups p nPage w o = elim (Option-cases (w.backups p).p) [
    | inl e ↦ rw e o
    | inr (h, e) ↦ elim (Answer-cases (rb.num2int nPage)) [
      | inl (n, answer) ↦ rw (e, answer) (stepped-HoldsBackups h n w (o.held p h e) o)
      | inr (x, answer) ↦ rw (e, answer) o
    ]
  ]

  BackupStep-HoldsBackups :
      {w g : World} → IsFreshBackup lib → BackupStep w g → HoldsBackups w → HoldsBackups g
  BackupStep-HoldsBackups fresh (allocated {w = w} p) o = allocate-HoldsBackups p w o
  BackupStep-HoldsBackups fresh (set_up {w = w} p dst src dstname srcname) o =
      initialize-HoldsBackups p dst src dstname srcname w fresh o
  BackupStep-HoldsBackups fresh (stepped {w = w} p nPage) o = step-HoldsBackups p nPage w o
  BackupStep-HoldsBackups fresh (finished {w = w} p) o = finish-HoldsBackups p w o
  BackupStep-HoldsBackups fresh (collected {w = w} p) o = without_backup-HoldsBackups p w o
  BackupStep-HoldsBackups fresh (elsewhere {w = w} {g = g} k) o = BackupsApart-HoldsBackups w g k o

  BackupHistory-HoldsBackups :
      {w g : World} → IsFreshBackup lib → BackupHistory w g → HoldsBackups w → HoldsBackups g
  BackupHistory-HoldsBackups fresh start o = o
  BackupHistory-HoldsBackups fresh (next h s) o =
      BackupStep-HoldsBackups fresh s (BackupHistory-HoldsBackups fresh h o)

  -- Where sqlite3_backup_init gives handles that are not in use: in any history of any number of
  -- backups that begins with no handle and an empty log, every sqlite3_backup_step and every
  -- sqlite3_backup_finish was made while its handle was live, so none after the handle was finished;
  -- and at every moment the handles of the backups are live, each of one backup.
  pub BackupHistory-safe :
      (w g : World)
      → IsFreshBackup lib
      → ((p : Ptr) → (w.backups p).p ≡ none)
      → w.log ≡ []
      → BackupHistory w g
      → (is_backup_safe g.log ≡ true)
        × ((p h : Ptr) → (g.backups p).p ≡ some h → backup_live h g.log ≡ true)
        × ((p q h : Ptr) → (g.backups p).p ≡ some h → (g.backups q).p ≡ some h → p ≡ q)
  BackupHistory-safe w g fresh empty start_log h =
      let o = BackupHistory-HoldsBackups fresh h (record {
        held = λ p k e. absurd (ground (arith, empty p));
        alone = λ p q k e f. absurd (ground (arith, empty p));
        safe = rw start_log;
      }) in
      (o.safe, o.held, o.alone)

  -- A backup that is set up again, while it has the handle of an earlier set-up, loses that handle
  -- without finishing it: where sqlite3_backup_init gives two handles that differ, a finish of the
  -- backup finishes the second, the first stays live, and the backup has no handle any more.
  pub initialize_again :
      (p dst src ddb sdb h h' : Ptr) (dstname srcname : Bytes) (w : World)
      → (w.databases dst).db ≡ some ddb
      → (w.databases src).db ≡ some sdb
      → (w.backups p).p ≡ some h
      → backup_live h w.log ≡ true
      → lib.handle (backup_init ddb dstname sdb srcname ∷ w.log) ≡ some h'
      → h' ≢ h
      → let v = final (initialize p dst dstname src srcname w) in
        let g = final (finish p v) in
        (v.log ≡ backup_init ddb dstname sdb srcname ∷ w.log)
        × (g.log ≡ backup_finish h' ∷ v.log)
        × (backup_live h g.log ≡ true)
        × ((g.backups p).p ≡ none)
  unfolding keep_handle finish
  initialize_again p dst src ddb sdb h h' dstname srcname w to from first live second other =
      rw (initialize_between p dst src ddb sdb dstname srcname w to from, second, ==_refl p)
        (refl, refl, ground arith, rw (==_refl p))
