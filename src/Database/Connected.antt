-- ===== src/Database/Connected.antt =====
-- Proofs about the connections of several objects at once (ext/sqlite3/database.c): each connection
-- stays with one object, through opening, closing and discarding, and is used while it is open.
use sqlite3_ruby.Base.{◌≡◌, refl, true, false, ◌||◌, Option, none, some, ◌∷◌, arith, ◌∙◌, ==_refl}
use sqlite3_ruby.Values.{Ptr, Bytes}
use sqlite3_ruby.Env.{Sqlite, Log, open_v2, open16, close_v2}
use sqlite3_ruby.Machine.{
  World, Database, Run, M, ok, raise, fault, out_of_fuel, and_then, final, update,
}
use sqlite3_ruby.Logs.{gives, is_open, open_slot, is_proper}
use sqlite3_ruby.Database.Flags.{set_readonly}
use sqlite3_ruby.Database.Discard.{allocate}
use sqlite3_ruby.Database.Serving.{Served}

module _ ⦃lib : Sqlite⦄ where
  -- The connections that objects have are open, each belongs to one object, and no call so far used a
  -- connection that was not open.
  pub record IsConnected (w : World) : Type 0 where
    pub held : (p c : Ptr) → (w.databases p).db ≡ some c → is_open c w.log ≡ true
    pub alone : (p q c : Ptr) → (w.databases p).db ≡ some c → (w.databases q).db ≡ some c → p ≡ q
    pub proper : is_proper w.log ≡ true

  slot_open :
      (s : Option Ptr) (log : Log)
      → ((c : Ptr) → s ≡ some c → is_open c log ≡ true)
      → open_slot s log ≡ true
  slot_open none log h = refl
  slot_open (some c) log h = h c refl

  pub connection_open :
      (w : World) (p : Ptr) → IsConnected w → open_slot (w.databases p).db w.log ≡ true
  connection_open w p o = slot_open (w.databases p).db w.log (o.held p)

  pub Served-IsConnected : (p : Ptr) (w g : World) → Served p w g → IsConnected w → IsConnected g
  Served-IsConnected p w g s o = record {
    held = λ q c h. ground (arith, s.opens c, s.same q, o.held q c);
    alone = λ q r c h k. ground (arith, s.same q, s.same r, o.alone q r c);
    proper = s.served (connection_open w p o) o.proper;
  }

  -- sqlite3_prepare_v2 and sqlite3_open16 give a connection that is not in use. (Documentation of
  -- sqlite3_open.)
  pub record IsFreshOpen : Type 0 where
    pub fresh_v2 :
        (log : Log) (name : Bytes) (flags : _) (vfs : Option Bytes) (c : Ptr)
        → lib.handle (open_v2 name flags vfs ∷ log) ≡ some c
        → is_open c log ≡ false
    pub fresh16 :
        (log : Log) (name : Bytes) (c : Ptr)
        → lib.handle (open16 name ∷ log) ≡ some c
        → is_open c log ≡ false

  pub allocate-IsConnected :
      (p : Ptr) (w : World)
      → (w.databases p).db ≡ none
      → IsConnected w
      → IsConnected (final (allocate p w))
  unfolding allocate
  allocate-IsConnected p w e o = record {
    held = λ q c k. ground (arith, o.held q c);
    alone = λ q r c k l. ground (arith, o.alone q r c);
    proper = o.proper;
  }

  -- The connection of the object is closed, and its pointer reset.
  pub closed-IsConnected :
      (p : Ptr) (w : World)
      → IsConnected w
      → IsConnected (record w {
        log = close_v2 (w.databases p).db ∷ w.log;
        databases = update w.databases p (record (w.databases p) { db = none });
      })
  closed-IsConnected p w o = record {
    held = λ q c k. ground (arith, o.held q c, o.alone p q c);
    alone = λ q r c k l. ground (arith, o.alone q r c);
    proper = ground (arith, connection_open w p o, o.proper);
  }

  -- The object has the connection that the newest call of the log gave.
  pub opened-IsConnected :
      (p : Ptr) (d : Database) (log : Log) (w : World)
      → ((c : Ptr) → is_open c log ≡ (gives d.db c || is_open c w.log))
      → ((c : Ptr) → d.db ≡ some c → is_open c w.log ≡ false)
      → is_proper log ≡ is_proper w.log
      → IsConnected w
      → IsConnected (record w { log = log; databases = update w.databases p d })
  opened-IsConnected p d log w opens fresh same o = record {
    held = λ q c k. ground (arith, o.held q c, opens c, ==_refl c);
    alone = λ q r c k l. ground (arith, o.alone q r c, o.held q c, o.held r c, fresh c);
    proper = same ∙ o.proper;
  }

  -- The other fields of a struct do not matter.
  pub flags-IsConnected :
      (p : Ptr) (w : World)
      → IsConnected w
      → IsConnected (record w { databases = update w.databases p (set_readonly (w.databases p)) })
  flags-IsConnected p w o = record {
    held = λ q c k. ground (arith, o.held q c);
    alone = λ q r c k l. ground (arith, o.alone q r c);
    proper = o.proper;
  }

  -- The object has no connection any more.
  pub dropped-IsConnected :
      (p : Ptr) (d : Database) (w : World)
      → d.db ≡ none
      → IsConnected w
      → IsConnected (record w { databases = update w.databases p d })
  dropped-IsConnected p d w e o = record {
    held = λ q c k. ground (arith, o.held q c);
    alone = λ q r c k l. ground (arith, o.alone q r c);
    proper = o.proper;
  }

-- A property that a command leaves, and that what comes after it keeps.
pub bind_keeps :
    (P : World → Type 0) {A B : Type 0} (m : Run A) (k : A → M B)
    → P (final m)
    → ((a : A) (v : World) → P v → P (final (k a v)))
    → P (final (and_then m k))
bind_keeps P (ok a v) k p rest = rest a v p
bind_keeps P (raise x v) k p rest = p
bind_keeps P (fault v) k p rest = p
bind_keeps P (out_of_fuel v) k p rest = p
