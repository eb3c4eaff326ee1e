-- ===== src/Database/Lifecycle.antt =====
-- Proofs about the end of a connection (ext/sqlite3/database.c, discard_db, close_or_discard_db).
use sqlite3_ruby.Base.{
  ℕ, zero, suc, ◌+◌, ◌≤◌, ◌<◌, ◌≡◌, refl, inl, inr, Option, none, some, [], ◌∷◌, ◌==◌, arith,
  Bool-cases, Option-cases, ◌∙◌,
}
use native.Mathlib.Decide.{dec_lt}
use sqlite3_ruby.Values.{Ptr, Bytes}
use sqlite3_ruby.Env.{
  Log, Sqlite, close_v2, file_pointer, FileOp, db_release_memory, file_control, journal_pointer,
}
use sqlite3_ruby.Machine.{World, Run, ok, final, update, and_then}
use sqlite3_ruby.Database.Flags.{set_discarded}
use sqlite3_ruby.Database.Discard.{close_file, close_files, discard_db, db_fuel}

-- How often sqlite3_close_v2 was called.
abbrev pub closes : Log → ℕ
closes [] = 0
closes (close_v2 p ∷ l) = suc (closes l)
closes (_ ∷ l) = closes l

-- What discard_db relies on: sqlite3_db_name is NULL from some index within the limit on, and a
-- sqlite3_file_control that succeeds stores a file.
pub record HasFiles (lib : Sqlite) (db : Ptr) : Type 0 where
  pub count : ℕ
  pub limited : count < db_fuel
  pub names_end : (log : Log) (j : ℕ) → count ≤ j → lib.db_name log db j ≡ none
  pub stores :
      (log : Log) (name : Option Bytes) (op : FileOp)
      → lib.status (file_control db name op ∷ log) ≡ 0
      → (f : Ptr) × (lib.handle (file_control db name op ∷ log) ≡ some f)

-- The run returns, having made calls to the library and no close, and changed nothing else.
abbrev pub Quiet : World → Run (Unit {0}) → Type 0
Quiet w r = (r ≡ ok tt (record w { log = (final r).log })) × (closes (final r).log ≡ closes w.log)

Quiet-and_then :
    (w : World) (r : Run (Unit {0})) (k : World → Run (Unit {0}))
    → Quiet w r
    → ((log : Log)
        → closes log ≡ closes w.log
        → Quiet (record w { log = log }) (k (record w { log = log })))
    → Quiet w (and_then r (λ _. k))
Quiet-and_then w r k (e, same) next = rw e (let q = next (final r).log same in (q.0, q.1 ∙ same))

module _ ⦃lib : Sqlite⦄ {db : Ptr} (files : HasFiles lib db) where
  close_file-Quiet :
      (name : Option Bytes) (op : FileOp) (w : World) → Quiet w (close_file db name op w)
  unfolding close_file
  close_file-Quiet name op w =
      elim (Bool-cases (lib.status (file_control db name op ∷ w.log) == 0)) [
        | inl e ↦ ground (arith, files.stores w.log name op)
        | inr e ↦ ground arith
      ]

  name_within :
      (log : Log) (j : ℕ) (name : Bytes) → lib.db_name log db j ≡ some name → j < files.count
  name_within log j name e = elim (dec_lt j files.count) [
    | yes h ↦ h
    | no h ↦ cc (files.names_end log j (omega arith))
  ]

  close_files-Quiet :
      (fuel j : ℕ) (w : World)
      → j ≤ files.count
      → files.count < j + fuel
      → Quiet w (close_files fuel db j w)
  unfolding close_files
  close_files-Quiet zero j w b h = absurd (omega arith)
  close_files-Quiet (suc fuel) j w b h = elim (Option-cases (lib.db_name w.log db j)) [
    | inl e ↦ rw (e, close_files) (refl, refl)
    | inr (name, e) ↦
        rw (e, close_files)
          (Quiet-and_then w _ (close_files fuel db (j + 1))
            (close_file-Quiet (some name) file_pointer w)
            λ log same.
              close_files-Quiet fuel (j + 1) (record w { log = log })
                (omega (arith, name_within w.log j name e)) (omega arith))
  ]

  -- discard_db returns, with the connection dropped and the flag set, and no close.
  pub discard_db_lem :
      (self : Ptr) (w : World)
      → (w.databases self).db ≡ some db
      → let r = discard_db self w in
        (r
          ≡ ok tt (record w {
            databases =
                update w.databases self (set_discarded (record (w.databases self) { db = none }));
            log = (final r).log;
          }))
        × (closes (final r).log ≡ closes w.log)
  unfolding discard_db
  discard_db_lem self w e =
      let w1 = record w { log = db_release_memory db ∷ w.log } in
      let (ran, same) =
        close_files-Quiet db_fuel 0 w1 (omega arith) (omega (arith, files.limited)) in
      let w2 = record w { log = (final (close_files db_fuel db 0 w1)).log } in
      let (ran', same') = close_file-Quiet none journal_pointer w2 in
      rw (e, ran, ran') (refl, same' ∙ same)
