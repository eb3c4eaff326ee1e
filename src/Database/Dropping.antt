-- ===== src/Database/Dropping.antt =====
-- Proofs that closing and discarding keep each connection with one object (ext/sqlite3/database.c).
use sqlite3_ruby.Base.{
  ℕ, zero, suc, ◌+◌, ◌≡◌, refl, true, ◌||◌, Option, none, some, ◌∷◌, ◌==◌, arith, Option-cases,
  Bool-cases, inl, inr, ◌∙◌, is_some,
}
use sqlite3_ruby.Values.{Ptr, Bytes}
use sqlite3_ruby.Env.{Sqlite, FileOp, file_pointer, journal_pointer, db_release_memory}
use sqlite3_ruby.Machine.{
  World, Database, Run, M, ok, raise, fault, out_of_fuel, and_then, ◌>>◌, set_database, final,
}
use sqlite3_ruby.Logs.{is_open, is_proper}
use sqlite3_ruby.Database.Flags.{is_readonly, set_discarded}
use sqlite3_ruby.Database.Discard.{
  close_file, close_files, discard_db, close_or_discard_db, db_fuel,
}
use sqlite3_ruby.Database.Connected.{
  IsConnected, closed-IsConnected, dropped-IsConnected, bind_keeps,
}

module _ ⦃lib : Sqlite⦄ where
  -- What a part of discard_db leaves, that uses the open connection `db`.
  record Polite (db : Ptr) (w g : World) : Type 0 where
    databases : g.databases ≡ w.databases
    opens : (c : Ptr) → is_open c g.log ≡ is_open c w.log
    proper : is_open db w.log ≡ true → is_proper w.log ≡ true → is_proper g.log ≡ true

  Polite-trans : (db : Ptr) (u v w : World) → Polite db u v → Polite db v w → Polite db u w
  Polite-trans db u v w h k = record {
    databases = k.databases ∙ h.databases;
    opens = λ c. k.opens c ∙ h.opens c;
    proper = λ e f. k.proper (h.opens db ∙ e) (h.proper e f);
  }

  Polite-then :
      (db : Ptr) (m : Run (Unit {0})) (k : M (Unit {0})) (w : World)
      → Polite db w (final m)
      → ((v : World) → Polite db v (final (k v)))
      → Polite db w (final (and_then m (λ _. k)))
  Polite-then db (ok a v) k w h rest = Polite-trans db w v (final (k v)) h (rest v)
  Polite-then db (raise e v) k w h rest = h
  Polite-then db (fault v) k w h rest = h
  Polite-then db (out_of_fuel v) k w h rest = h

  close_file-Polite :
      (db : Ptr) (name : Option Bytes) (op : FileOp) (w : World)
      → Polite db w (final (close_file db name op w))
  unfolding close_file
  close_file-Polite db name op w = record {
    databases = ground arith;
    opens = λ c. ground arith;
    proper = λ h k. ground arith;
  }

  close_files-Polite :
      (fuel : ℕ) (db : Ptr) (j : ℕ) (w : World) → Polite db w (final (close_files fuel db j w))
  unfolding close_files
  close_files-Polite zero db j w = record { databases = refl; opens = λ c. refl; proper = λ h k. k }
  close_files-Polite (suc fuel) db j w = elim (Option-cases (lib.db_name w.log db j)) [
    | inl e ↦
        rw (e, close_files) (record { databases = refl; opens = λ c. refl; proper = λ h k. k })
    | inr (name, e) ↦
        rw (e, close_files)
          (Polite-then db (close_file db (some name) file_pointer w) (close_files fuel db (j + 1)) w
            (close_file-Polite db (some name) file_pointer w) (close_files-Polite fuel db (j + 1)))
  ]

  -- The invariant, and that the connection `db` is open.
  abbrev Holding : Ptr → World → Type 0
  Holding db w = IsConnected w × (is_open db w.log ≡ true)

  Polite-Holding : (db : Ptr) (w g : World) → Polite db w g → Holding db w → Holding db g
  Polite-Holding db w g h (o, e) = (
    record {
      held = λ p c k. h.opens c ∙ o.held p c (rw (← h.databases) k);
      alone = λ p q c k l. o.alone p q c (rw (← h.databases) k) (rw (← h.databases) l);
      proper = h.proper e o.proper;
    },
    h.opens db ∙ e,
  )

  released-Polite :
      (db : Ptr) (w : World) → Polite db w (record w { log = db_release_memory db ∷ w.log })
  released-Polite db w = record {
    databases = refl;
    opens = λ c. refl;
    proper = λ h k. ground arith;
  }

  files_Holding :
      (db p : Ptr) (d : Database) (w : World)
      → d.db ≡ none
      → Holding db w
      → Holding db (
          final (
            (close_files db_fuel db 0 >> (close_file db none journal_pointer >> set_database p d))
              w))
  files_Holding db p d w shut h =
      bind_keeps (Holding db) (close_files db_fuel db 0 w)
        (λ _. close_file db none journal_pointer >> set_database p d)
        (Polite-Holding db w (final (close_files db_fuel db 0 w))
          (close_files-Polite db_fuel db 0 w) h)
        λ _ u hu.
          bind_keeps (Holding db) (close_file db none journal_pointer u) (λ _. set_database p d)
            (Polite-Holding db u (final (close_file db none journal_pointer u))
              (close_file-Polite db none journal_pointer u) hu)
            (λ _ x hx. (dropped-IsConnected p d x shut hx.0, hx.1))

  pub discard_db-IsConnected :
      (p : Ptr) (w : World) → IsConnected w → IsConnected (final (discard_db p w))
  unfolding discard_db
  discard_db-IsConnected p w o = elim (Option-cases (w.databases p).db) [
    | inl e ↦ rw e o
    | inr (db, e) ↦
        let v = record w { log = db_release_memory db ∷ w.log } in
        let d = set_discarded (record (w.databases p) { db = none }) in
        rw e
          (files_Holding db p d v refl
            (Polite-Holding db w v (released-Polite db w) (o, o.held p db e))).0
  ]

  pub close_or_discard_db-IsConnected :
      (p : Ptr) (w : World) → IsConnected w → IsConnected (final (close_or_discard_db p w))
  unfolding close_or_discard_db
  close_or_discard_db-IsConnected p w o = elim (Bool-cases (is_some (w.databases p).db)) [
    | inr shut ↦ rw shut o
    | inl open_db ↦
        elim (Bool-cases (is_readonly (w.databases p) || (w.databases p).owner == w.pid)) [
          | inl mine ↦ rw (open_db, mine) (closed-IsConnected p w o)
          | inr other ↦ rw (open_db, other) (discard_db-IsConnected p w o)
        ]
  ]
