-- ===== src/Database/Histories.antt =====
-- The lives of all the Database objects of a program (ext/sqlite3/database.c): they are opened, used,
-- closed, discarded and collected in any order, over forks.
use sqlite3_ruby.Base.{ℕ, ◌≡◌, refl, true, Option, none, some, [], arith, ◌∙◌}
use sqlite3_ruby.Values.{Ptr, Bytes, Str, Value}
use sqlite3_ruby.Env.{Sqlite, Ruby}
use sqlite3_ruby.Machine.{World, final, update, pure}
use sqlite3_ruby.Logs.{is_open, is_proper}
use sqlite3_ruby.Errors.Raise.{rb_sqlite3_raise}
use sqlite3_ruby.Database.Open.{rb_sqlite3_open_v2, rb_sqlite3_open16}
use sqlite3_ruby.Database.Discard.{
  allocate, close_or_discard_db, sqlite3_rb_close, deallocate, sqlite3_rb_discard, discard_db,
  new_struct,
}
use sqlite3_ruby.Backup.Methods.{initialize, keep_handle}
use sqlite3_ruby.Database.Connected.{
  IsConnected, IsFreshOpen, connection_open, allocate-IsConnected, dropped-IsConnected,
  Served-IsConnected,
}
use sqlite3_ruby.Database.Attaching.{open_v2-IsConnected, open16-IsConnected}
use sqlite3_ruby.Database.Dropping.{discard_db-IsConnected, close_or_discard_db-IsConnected}
use sqlite3_ruby.Structs.{database_type, collect}
use sqlite3_ruby.Database.Services.{Service, serve, serve-Served, batch_rest}

-- xfree: the struct at `self` is given back, and its memory tells nothing any more.
abbrev pub struct_given_back : Ptr → World → World
struct_given_back self w = record w { databases = update w.databases self (new_struct w.pid) }

module _ ⦃lib : Sqlite⦄ where
  -- Something that leaves the connections of the objects alone and makes none of the calls of
  -- is_proper with a connection.
  pub record Unconnected (w g : World) : Type 0 where
    pub same : (q : Ptr) → (g.databases q).db ≡ (w.databases q).db
    pub opens : (c : Ptr) → is_open c g.log ≡ is_open c w.log
    pub unused : is_proper g.log ≡ is_proper w.log

  Unconnected-IsConnected : (w g : World) → Unconnected w g → IsConnected w → IsConnected g
  Unconnected-IsConnected w g u o = record {
    held = λ q c h. ground (arith, u.opens c, u.same q, o.held q c);
    alone = λ q r c h k. ground (arith, u.same q, u.same r, o.alone q r c);
    proper = u.unused ∙ o.proper;
  }

  backup-IsConnected :
      (b dst : Ptr) (to : Bytes) (src : Ptr) (from : Bytes) (w : World)
      → IsConnected w
      → IsConnected (final (initialize b dst to src from w))
  unfolding initialize keep_handle rb_sqlite3_raise
  backup-IsConnected b dst to src from w o = record {
    held = λ q c h. ground (arith, o.held q c);
    alone = λ q r c h k. ground (arith, o.alone q r c);
    proper = ground (arith, connection_open w dst o, connection_open w src o, o.proper);
  }

module _ ⦃lib : Sqlite⦄ ⦃rb : Ruby⦄ where
  -- One operation of one object, of two that a backup connects, or something else that makes none of these
  -- calls with a connection.
  pub data ConnectionStep : World → World → Type 0 where
    allocated :
        {w : World} (p : Ptr) → (w.databases p).db ≡ none → ConnectionStep w (final (allocate p w))
    opened :
        {w : World} (p : Ptr) (file : Bytes) (mode : Value) (vfs : Option Bytes)
        → ConnectionStep w (final (rb_sqlite3_open_v2 p file mode vfs w))
    opened16 :
        {w : World} (p : Ptr) (file : Str) → ConnectionStep w (final (rb_sqlite3_open16 p file w))
    served : {w : World} (p : Ptr) (s : Service) → ConnectionStep w (serve p s w)
    backed_up :
        {w : World} (b dst : Ptr) (to : Bytes) (src : Ptr) (from : Bytes)
        → ConnectionStep w (final (initialize b dst to src from w))
    closed : {w : World} (p : Ptr) → ConnectionStep w (final (sqlite3_rb_close p w))
    discarded : {w : World} (p : Ptr) → ConnectionStep w (final (sqlite3_rb_discard p w))
    collected :
        {w : World} (p : Ptr)
        → ConnectionStep w (struct_given_back p (final (collect database_type p w)))
    forked : {w : World} (child : ℕ) → ConnectionStep w (record w { pid = child })
    elsewhere : {w g : World} → Unconnected w g → ConnectionStep w g

  pub data ConnectionHistory : World → World → Type 0 where
    start : {w : World} → ConnectionHistory w w
    next : {u v w : World} → ConnectionHistory u v → ConnectionStep v w → ConnectionHistory u w

  close_final :
      (p : Ptr) (w : World) → final (sqlite3_rb_close p w) ≡ final (close_or_discard_db p w)
  unfolding sqlite3_rb_close
  close_final p w = batch_rest (close_or_discard_db p w) (λ _. pure p) (λ a v. refl)

  discard_final : (p : Ptr) (w : World) → final (sqlite3_rb_discard p w) ≡ final (discard_db p w)
  unfolding sqlite3_rb_discard
  discard_final p w = batch_rest (discard_db p w) (λ _. pure p) (λ a v. refl)

  step-IsConnected :
      {w g : World} → IsFreshOpen → ConnectionStep w g → IsConnected w → IsConnected g
  unfolding deallocate
  step-IsConnected fresh (allocated {w = w} p e) o = allocate-IsConnected p w e o
  step-IsConnected fresh (opened {w = w} p file mode vfs) o =
      open_v2-IsConnected fresh p w o file mode vfs
  step-IsConnected fresh (opened16 {w = w} p file) o = open16-IsConnected fresh p w o file
  step-IsConnected fresh (served {w = w} p s) o =
      Served-IsConnected p w (serve p s w) (serve-Served p s w) o
  step-IsConnected fresh (backed_up {w = w} b dst to src from) o =
      backup-IsConnected b dst to src from w o
  step-IsConnected fresh (closed {w = w} p) o =
      rw (close_final p w) (close_or_discard_db-IsConnected p w o)
  step-IsConnected fresh (discarded {w = w} p) o =
      rw (discard_final p w) (discard_db-IsConnected p w o)
  step-IsConnected fresh (collected {w = w} p) o =
      let v = final (close_or_discard_db p w) in
      dropped-IsConnected p (new_struct v.pid) v refl (close_or_discard_db-IsConnected p w o)
  step-IsConnected fresh (forked child) o = record {
    held = o.held;
    alone = o.alone;
    proper = o.proper;
  }
  step-IsConnected fresh (elsewhere {w = w} {g = g} u) o = Unconnected-IsConnected w g u o

  history-IsConnected :
      {w g : World} → IsFreshOpen → ConnectionHistory w g → IsConnected w → IsConnected g
  history-IsConnected fresh start o = o
  history-IsConnected fresh (next h s) o = step-IsConnected fresh s (history-IsConnected fresh h o)

  -- Where the open functions give connections that are not in use: in any history of any number of
  -- Database objects, over forks, that begins with no connection and an empty log, every call of these
  -- functions was made while its connections were open: sqlite3_close_v2, sqlite3_prepare_v2,
  -- sqlite3_exec, sqlite3_interrupt, sqlite3_db_release_memory, sqlite3_file_control,
  -- sqlite3_db_config, sqlite3_backup_init, sqlite3_load_extension, and those that set a hook, the busy
  -- timeout, the extended result codes or the loading of extensions, or that define a function, an
  -- aggregate or a collation. So none of these was made after the connection was closed, and no
  -- connection was closed twice; and after the history the connections of the objects are open, each of
  -- one object. Nothing is said of the functions that only read, as sqlite3_errmsg.
  pub ConnectionHistory-proper :
      (w g : World)
      → IsFreshOpen
      → ((p : Ptr) → (w.databases p).db ≡ none)
      → w.log ≡ []
      → ConnectionHistory w g
      → (is_proper g.log ≡ true)
        × ((p c : Ptr) → (g.databases p).db ≡ some c → is_open c g.log ≡ true)
        × ((p q c : Ptr) → (g.databases p).db ≡ some c → (g.databases q).db ≡ some c → p ≡ q)
  ConnectionHistory-proper w g fresh empty start_log h =
      let o = history-IsConnected fresh h (record {
        held = λ p c k. absurd (ground (arith, empty p));
        alone = λ p q c k l. absurd (ground (arith, empty p));
        proper = rw start_log;
      }) in
      (o.proper, o.held, o.alone)
