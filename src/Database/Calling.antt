-- ===== src/Database/Calling.antt =====
-- Proofs that prepare uses a connection only while it is open, with its callbacks
-- (ext/sqlite3/statement.c).
use sqlite3_ruby.Base.{ℕ, ◌≡◌, refl, true, ◌&&◌, Option, none, some, ◌∷◌, arith, ap, ◌∙◌}
use sqlite3_ruby.Values.{Ptr, Bytes, Value}
use sqlite3_ruby.Env.{Sqlite, Ruby, Log, Call, prepare_v2}
use sqlite3_ruby.Machine.{World, Statement, M, final}
use sqlite3_ruby.Callbacks.{enter}
use sqlite3_ruby.Callbacks.Kept.{Kept, kept_then}
use sqlite3_ruby.Callbacks.Keeping.{enter-Kept}
use sqlite3_ruby.Statement.Preparing.{with_db}
use sqlite3_ruby.Logs.{is_open, open_slot, is_proper}
use sqlite3_ruby.Errors.Raise.{rb_sqlite3_raise_with_sql}
use sqlite3_ruby.Statement.Prepare.{prepare, prepare_result}
use sqlite3_ruby.Database.Serving.{Served}

slot_opens :
    ⦃lib : Sqlite⦄ (s : Option Ptr) (log log' : Log)
    → ((c : Ptr) → is_open c log' ≡ is_open c log)
    → open_slot s log ≡ true
    → open_slot s log' ≡ true
slot_opens none log log' opens h = refl
slot_opens (some c) log log' opens h = opens c ∙ h

module _ ⦃lib : Sqlite⦄ ⦃rb : Ruby⦄ (self : Ptr) where
  result-Served :
      (stmt : Ptr) (h : Option Ptr) (sql : Bytes) (ctx : Statement) (st : Option Ptr) (status : ℕ)
      (w : World)
      → Served self w (final (prepare_result stmt self h sql ctx st status w))
  unfolding prepare_result rb_sqlite3_raise_with_sql
  result-Served stmt h sql ctx st status w = grind arith

  -- A call with the object's connection, up to the end of its callbacks.
  pub called-Served :
      (c : Call) (w g : World)
      → ((p : Ptr) → is_open p (c ∷ w.log) ≡ is_open p w.log)
      → is_proper (c ∷ w.log) ≡ (open_slot (w.databases self).db w.log && is_proper w.log)
      → Kept (record w { log = c ∷ w.log }) g
      → Served self w g
  called-Served c w g opens proper k = record {
    same = λ q. ap (λ d. d.db) (k.connections q);
    opens = λ p. k.opens p ∙ opens p;
    served = λ h p. k.proper ∙ proper ∙ ground arith;
  }

  Served-trans : (u v w : World) → Served self u v → Served self v w → Served self u w
  Served-trans u v w h k = record {
    same = λ q. k.same q ∙ h.same q;
    opens = λ c. k.opens c ∙ h.opens c;
    served = λ e f.
        k.served (rw (h.same self) (slot_opens (u.databases self).db u.log v.log h.opens e))
          (h.served e f);
  }

  called_from :
      (stmt : Ptr) (sql : Bytes) (w g : World)
      → Kept (record (with_db stmt self w) { log = prepare_v2 (w.databases self).db sql ∷ w.log }) g
      → Served self w g
  called_from stmt sql w g k =
      let c = prepare_v2 (w.databases self).db sql in
      let s = called-Served c (with_db stmt self w) g (λ p. refl) refl k in
      record { same = s.same; opens = s.opens; served = s.served }

  pub prepare-Served :
      (stmt : Ptr) (sql : Bytes) (w : World) → Served self w (final (prepare stmt self sql w))
  unfolding prepare
  prepare-Served stmt sql w =
      let c = prepare_v2 (w.databases self).db sql in
      let v = with_db stmt self w in
      let h = lib.handle (c ∷ w.log) in
      let ctx = w.statements stmt in
      let rest : ℕ → M Value =
        λ status. prepare_result stmt self (w.databases self).db sql ctx h status in
      kept_then (Served self w) (enter c v) rest (record v { log = c ∷ v.log }) (enter-Kept c v)
        (called_from stmt sql w)
        λ status g k.
          Served-trans w g (final (rest status g)) (called_from stmt sql w g k)
            (result-Served stmt (w.databases self).db sql ctx h status g)
