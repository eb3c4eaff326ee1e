-- ===== src/Tests/Backups.antt =====
-- The theorems about the lives of backups, at histories of two of them.
use sqlite3_ruby.Base.{pos, ◌≤◌, ◌≡◌, ◌≢◌, ℕ, refl, true, none, some, [], ◌∷◌, length, arith}
use sqlite3_ruby.Values.{fixnum, Ptr}
use sqlite3_ruby.Env.{Log, backup_init, backup_finish}
use sqlite3_ruby.Machine.{World, final, update}
use sqlite3_ruby.Logs.{backup_live, is_backup_safe}
use sqlite3_ruby.Backup.Methods.{initialize, keep_handle, step, finish}
use sqlite3_ruby.Backup.Histories.{
  IsFreshBackup, BackupHistory, start, next, set_up, stepped, finished, collected, without_backup,
  BackupHistory-safe, initialize_again,
}
use sqlite3_ruby.Tests.Demo.{demo_rb, busy_world, open_struct, main_name}
use sqlite3_ruby.Tests.Histories.{numbering}

backup-le-length :
    (h : Ptr) (log : Log) → backup_live ⦃lib = numbering⦄ h log ≡ true → h ≤ length log
backup-le-length h [] e = ground arith
backup-le-length h (backup_finish p ∷ log) e = ground (arith, backup-le-length h log)
backup-le-length h (backup_init dst to src from ∷ log) e = ground (arith, backup-le-length h log)
backup-le-length h (_ ∷ log) e = ground (arith, backup-le-length h log)

numbering-IsFreshBackup : IsFreshBackup numbering
numbering-IsFreshBackup log dst to src from h e = ground (arith, backup-le-length h log)

-- Two open databases, at 1 and at 5, and no backup.
abbrev pair_world : World
pair_world = record busy_world {
  databases = update busy_world.databases 5 (record open_struct { db = some 78 });
  backups = λ p. record { p = none };
}

abbrev set_up_at : Ptr → World → World
set_up_at p w = final (initialize ⦃lib = numbering⦄ p 1 main_name 5 main_name w)

-- A backup is set up and stepped, another is set up, both are finished, and one is collected.
abbrev stepped_world : World
stepped_world =
    final (step ⦃lib = numbering⦄ ⦃rb = demo_rb⦄ 4 (fixnum (pos 1)) (set_up_at 4 pair_world))

abbrev both_finished : World
both_finished = without_backup 6 (final (finish 4 (final (finish 6 (set_up_at 6 stepped_world)))))

two_backups : BackupHistory ⦃lib = numbering⦄ ⦃rb = demo_rb⦄ pair_world both_finished
two_backups =
    next
      (next
        (next
          (next (next (next start (set_up 4 1 5 main_name main_name)) (stepped 4 (fixnum (pos 1))))
            (set_up 6 1 5 main_name main_name))
          (finished 6))
        (finished 4))
      (collected 6)

BackupHistory-safe_example :
    (is_backup_safe ⦃lib = numbering⦄ both_finished.log ≡ true)
    × ((p h : Ptr)
        → (both_finished.backups p).p ≡ some h
        → backup_live ⦃lib = numbering⦄ h both_finished.log ≡ true)
    × ((p q h : Ptr)
        → (both_finished.backups p).p ≡ some h
        → (both_finished.backups q).p ≡ some h
        → p ≡ q)
BackupHistory-safe_example =
    BackupHistory-safe ⦃lib = numbering⦄ ⦃rb = demo_rb⦄ pair_world both_finished
      numbering-IsFreshBackup (λ p. refl) refl two_backups

two_is_not_one : ◌≢◌ {A = ℕ} 2 1
two_is_not_one = ground arith

initialize_again_example :
    let w = set_up_at 4 pair_world in
    let v = set_up_at 4 w in
    let g = final (finish 4 v) in
    (v.log ≡ backup_init 77 main_name 78 main_name ∷ w.log)
    × (g.log ≡ backup_finish 2 ∷ v.log)
    × (backup_live ⦃lib = numbering⦄ 1 g.log ≡ true)
    × ((g.backups 4).p ≡ none)
unfolding initialize keep_handle
initialize_again_example =
    initialize_again ⦃lib = numbering⦄ ⦃rb = demo_rb⦄ 4 1 5 77 78 1 2 main_name main_name
      (set_up_at 4 pair_world) refl refl refl refl refl two_is_not_one
