-- ===== src/Database/Attaching.antt =====
-- Proofs that opening keeps each connection with one object (ext/sqlite3/database.c).
use sqlite3_ruby.Base.{ℕ, ◌≡◌, refl, Bool, true, false, not, Option, ◌∷◌, ◌==◌, arith, sym}
use mathlib.Core.Path.{subst}
use sqlite3_ruby.Values.{Ptr, Bytes, Str, Value}
use sqlite3_ruby.Env.{Sqlite, Ruby, open_v2, open16}
use sqlite3_ruby.Machine.{
  World, Run, M, ok, raise, fault, out_of_fuel, and_then, when, lift, set_database, final, update,
}
use sqlite3_ruby.Errors.Raise.{rb_sqlite3_raise_msg}
use sqlite3_ruby.Database.Flags.{require_closed_db, open_readonly, set_readonly}
use sqlite3_ruby.Database.Open.{
  string_value_cstr, optional_cstr, rb_sqlite3_open_v2, rb_sqlite3_open16, open_failed,
  utf16_string_value_ptr,
}
use sqlite3_ruby.Database.Connected.{
  IsConnected, IsFreshOpen, closed-IsConnected, opened-IsConnected, flags-IsConnected, bind_keeps,
}

module _ ⦃lib : Sqlite⦄ where
  pub raise_pure :
      (status : ℕ) (msg : Bytes) (w : World) → final (rb_sqlite3_raise_msg status msg w) ≡ w
  unfolding rb_sqlite3_raise_msg
  raise_pure status msg w = ground arith

  failed-IsConnected :
      (p : Ptr) (status : ℕ) (w : World)
      → IsConnected w
      → IsConnected (final (open_failed p status w))
  unfolding open_failed
  failed-IsConnected p status w o =
      rw (raise_pure status (lib.errmsg w.log (w.databases p).db) _) (closed-IsConnected p w o)

  -- A command that changes nothing, and what comes after it.
  keep_then :
      {A B : Type 0} (m : Run A) (k : A → M B) (w : World)
      → final m ≡ w
      → IsConnected w
      → ((a : A) → IsConnected (final (k a w)))
      → IsConnected (final (and_then m k))
  keep_then (ok a v) k w e o rest = subst (λ u. IsConnected (final (k a u))) (sym e) (rest a)
  keep_then (raise x v) k w e o rest = rw e o
  keep_then (fault v) k w e o rest = rw e o
  keep_then (out_of_fuel v) k w e o rest = rw e o

  when_failed :
      (b : Bool) (p : Ptr) (status : ℕ) (w : World)
      → IsConnected w
      → IsConnected (final (when b (open_failed p status) w))
  when_failed true p status w o = failed-IsConnected p status w o
  when_failed false p status w o = o

  when_readonly :
      (b : Bool) (p : Ptr) (w : World)
      → IsConnected w
      → IsConnected (final (when b (set_database p (set_readonly (w.databases p))) w))
  when_readonly true p w o = flags-IsConnected p w o
  when_readonly false p w o = o

  utf16_pure : ⦃rb : Ruby⦄ → (file : Str) (w : World) → final (utf16_string_value_ptr file w) ≡ w
  unfolding utf16_string_value_ptr
  utf16_pure file w = ground arith

  module _ ⦃rb : Ruby⦄ (fresh : IsFreshOpen) (p : Ptr) (w : World) (o : IsConnected w) where
    pub open_v2-IsConnected :
        (file : Bytes) (mode : Value) (vfs : Option Bytes)
        → IsConnected (final (rb_sqlite3_open_v2 p file mode vfs w))
    unfolding rb_sqlite3_open_v2
    open_v2-IsConnected file mode vfs =
        keep_then (require_closed_db (w.databases p) w) _ w (ground arith) o λ _.
          keep_then (lift (rb.num2int mode) w) _ w (ground arith) o λ flags.
            keep_then (string_value_cstr file w) _ w (ground arith) o λ name.
              keep_then (optional_cstr vfs w) _ w (ground arith) o λ v.
                let log = open_v2 name flags v ∷ w.log in
                let d = record (w.databases p) { db = lib.handle log } in
                let u = record w { log = log; databases = update w.databases p d } in
                bind_keeps IsConnected
                  (when (not (lib.status log == 0)) (open_failed p (lib.status log)) u) _
                  (when_failed (not (lib.status log == 0)) p (lib.status log) u (
                    opened-IsConnected p d log w (λ c. refl) (fresh.fresh_v2 w.log name flags v)
                      refl o))
                  λ _ x ox.
                    bind_keeps IsConnected
                      (when (open_readonly flags) (set_database p (set_readonly (x.databases p))) x)
                      _ (when_readonly (open_readonly flags) p x ox) (λ _ y oy. oy)

    pub open16-IsConnected : (file : Str) → IsConnected (final (rb_sqlite3_open16 p file w))
    unfolding rb_sqlite3_open16
    open16-IsConnected file =
        keep_then (require_closed_db (w.databases p) w) _ w (ground arith) o λ _.
          keep_then (utf16_string_value_ptr file w) _ w (utf16_pure file w) o λ str.
            let log = open16 str.bytes ∷ w.log in
            let d = record (w.databases p) { db = lib.handle log } in
            let u = record w { log = log; databases = update w.databases p d } in
            bind_keeps IsConnected
              (when (not (lib.status log == 0)) (open_failed p (lib.status log)) u) _
              (when_failed (not (lib.status log == 0)) p (lib.status log) u
                (opened-IsConnected p d log w (λ c. refl) (fresh.fresh16 w.log str.bytes) refl o))
              (λ _ y oy. oy)
