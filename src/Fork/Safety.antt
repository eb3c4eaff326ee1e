-- ===== src/Fork/Safety.antt =====
-- The safety of forks: a connection that can write is never closed outside its process.
use sqlite3_ruby.Base.{
  ℕ, ◌+◌, ◌≡◌, ◌≢◌, ◌⊎◌, Bool, true, false, not, ◌&&◌, ◌||◌, none, List, [], ◌∷◌, ◌==◌, arith,
  if◌then◌else◌, is_some, ==_refl, inl, inr,
}
use sqlite3_ruby.Values.{Ptr, Bytes, Str, Value}
use sqlite3_ruby.Env.{Sqlite, Ruby}
use sqlite3_ruby.Machine.{World, Database, final}
use sqlite3_ruby.Database.Flags.{is_readonly}
use sqlite3_ruby.Database.Discard.{allocate, close_or_discard_db, sqlite3_rb_close, deallocate}
use sqlite3_ruby.Database.Open.{
  rb_sqlite3_open_v2, rb_sqlite3_open16, open_failed, utf16_string_value_ptr,
}
use sqlite3_ruby.Database.Lifecycle.{closes, HasFiles}
use sqlite3_ruby.Database.Close.{ended, closes_properly, close_or_discard_db-Ended}
use sqlite3_ruby.Errors.Raise.{rb_sqlite3_raise_msg}
use sqlite3_ruby.Fork.Events.{
  Event, fork_to, new_db, new_db16, close_db, collect_db, Node, asks_to_write, happen, happen_all,
}

-- What the struct of an open connection says of it is true.
abbrev pub IsTrue : Database → ℕ → Bool → Type 0
IsTrue d opened_in writable =
    is_some d.db ≡ true → (d.owner ≡ opened_in) × (is_readonly d ≡ not writable)

abbrev pub AllTrue : Node → Type 0
AllTrue n = (self : Ptr) → IsTrue (n.world.databases self) (n.opened_in self) (n.writable self)

address_cases : (q self : Ptr) → (q ≡ self) ⊎ (q ≢ self)
address_cases q self = ground arith

other_test : (q self : Ptr) → q ≢ self → (q == self) ≡ false
other_test q self h = ground arith

module _ ⦃lib : Sqlite⦄ ⦃rb : Ruby⦄ where
  module _ (self : Ptr) (w : World) (shut : (w.databases self).db ≡ none) where
    open_v2-IsTrue :
        (file : Bytes) (mode : Value)
        → (w.databases self).flags ≡ 0
        → IsTrue
            ((final (rb_sqlite3_open_v2 self file mode none w)).databases self)
            (w.databases self).owner
            (asks_to_write (rb.num2int mode))
    unfolding rb_sqlite3_open_v2 open_failed rb_sqlite3_raise_msg
    open_v2-IsTrue file mode clear = rw shut (ground arith)

    open_v2-others :
        (file : Bytes) (mode : Value) (q : Ptr)
        → q ≢ self
        → (final (rb_sqlite3_open_v2 self file mode none w)).databases q ≡ w.databases q
    unfolding rb_sqlite3_open_v2 open_failed rb_sqlite3_raise_msg
    open_v2-others file mode q other = rw shut (ground arith)

    open16-IsTrue :
        (file : Str)
        → (w.databases self).flags ≡ 0
        → IsTrue
            ((final (rb_sqlite3_open16 self file w)).databases self)
            (w.databases self).owner
            true
    unfolding rb_sqlite3_open16 open_failed rb_sqlite3_raise_msg utf16_string_value_ptr
    open16-IsTrue file clear = rw shut (ground arith)

    open16-others :
        (file : Str) (q : Ptr)
        → q ≢ self
        → (final (rb_sqlite3_open16 self file w)).databases q ≡ w.databases q
    unfolding rb_sqlite3_open16 open_failed rb_sqlite3_raise_msg utf16_string_value_ptr
    open16-others file q other = rw shut (ground arith)

  module _ (self : Ptr) (n : Node) (inv : AllTrue n) where
    -- The struct at `self` is new.
    allocated : World
    unfolding allocate
    allocated = final (allocate self n.world)

    allocated_shut : (allocated.databases self).db ≡ none
    unfolding allocated
    allocated_shut = rw (==_refl self)

    allocated_clear : (allocated.databases self).flags ≡ 0
    unfolding allocated
    allocated_clear = rw (==_refl self)

    new_db-AllTrue : (file : Bytes) (mode : Value) → AllTrue (happen (new_db self file mode) n)
    unfolding happen allocated
    new_db-AllTrue file mode q = elim (address_cases q self) [
      | inl e ↦
          rw (e, ==_refl self)
            (rw (==_refl self) at
              (open_v2-IsTrue self allocated allocated_shut file mode allocated_clear))
      | inr other ↦
          rw
            (
              open_v2-others self allocated allocated_shut file mode q other,
              other_test q self other,
            )
            (inv q)
    ]

    new_db16-AllTrue : (file : Str) → AllTrue (happen (new_db16 self file) n)
    unfolding happen allocated
    new_db16-AllTrue file q = elim (address_cases q self) [
      | inl e ↦
          rw (e, ==_refl self)
            (rw (==_refl self) at
              (open16-IsTrue self allocated allocated_shut file allocated_clear))
      | inr other ↦
          rw (open16-others self allocated allocated_shut file q other, other_test q self other)
            (inv q)
    ]

    module _ (files : (db : Ptr) → HasFiles lib db) where
      closed-AllTrue :
          (q : Ptr)
          → IsTrue
              ((final (close_or_discard_db self n.world)).databases q)
              (n.opened_in q)
              (n.writable q)
      closed-AllTrue q =
          let out = close_or_discard_db-Ended files self n.world in
          elim (address_cases q self) [
            | inl e ↦ rw (e, out.struct) (ground arith)
            | inr other ↦ rw (out.others q other) (inv q)
          ]

module _ ⦃lib : Sqlite⦄ ⦃rb : Ruby⦄ (files : (db : Ptr) → HasFiles lib db) where
  happen-AllTrue : (e : Event) (n : Node) → AllTrue n → AllTrue (happen e n)
  unfolding happen sqlite3_rb_close deallocate
  happen-AllTrue (fork_to child) n inv q = inv q
  happen-AllTrue (new_db self file mode) n inv q = new_db-AllTrue self n inv file mode q
  happen-AllTrue (new_db16 self file) n inv q = new_db16-AllTrue self n inv file q
  happen-AllTrue (close_db self) n inv q =
      rw (close_or_discard_db-Ended files self n.world).returns (closed-AllTrue self n inv files q)
  happen-AllTrue (collect_db self) n inv q = closed-AllTrue self n inv files q

  happen_all-AllTrue : (es : List Event) (n : Node) → AllTrue n → AllTrue (happen_all es n)
  unfolding happen_all
  happen_all-AllTrue [] n inv = inv
  happen_all-AllTrue (e ∷ es) n inv = happen_all-AllTrue es (happen e n) (happen-AllTrue e n inv)

-- The test of close_or_discard_db is the test of the onlooker.
tests_agree :
    (d : Database) (pid opened_in : ℕ) (writable : Bool)
    → IsTrue d opened_in writable
    → (is_some d.db && closes_properly d pid) ≡ (is_some d.db && (not writable || opened_in == pid))
tests_agree d pid opened_in writable h = ground (arith, h)

ended_shut : (d : Database) (pid : ℕ) → (ended d pid).db ≡ none
ended_shut d pid = ground arith

-- Whether the connection of the struct may be closed where the node is: it is open, and was not opened
-- for writing or was opened by this process.
abbrev pub may_close : Node → Ptr → Bool
may_close n self =
    is_some (n.world.databases self).db
    && (not (n.writable self) || n.opened_in self == n.world.pid)

module _ ⦃lib : Sqlite⦄ ⦃rb : Ruby⦄ (files : (db : Ptr) → HasFiles lib db) where
  -- Fork safety. From a state with no open connection, after any sequence of constructions, forks,
  -- closes and garbage collections, a close and a garbage collection of an object call
  -- sqlite3_close_v2 once if its connection is open, and was not opened for writing or was opened by
  -- this very process; otherwise they do not call it at all. So a connection that can write, carried
  -- across a fork, is never closed in the child.
  pub fork_safe :
      (es : List Event) (n : Node) (self : Ptr)
      → ((q : Ptr) → (n.world.databases q).db ≡ none)
      → let m = happen_all es n in
        (closes (happen (close_db self) m).world.log
          ≡ closes m.world.log + (if may_close m self then 1 else 0))
        × (closes (happen (collect_db self) m).world.log
            ≡ closes m.world.log + (if may_close m self then 1 else 0))
        × (((happen (close_db self) m).world.databases self).db ≡ none)
  unfolding happen sqlite3_rb_close deallocate
  fork_safe es n self start =
      let m = happen_all es n in
      let inv = happen_all-AllTrue files es n (λ q. rw start (ground arith)) self in
      let out = close_or_discard_db-Ended files self m.world in
      let once =
        rw
          (tests_agree (m.world.databases self) m.world.pid (m.opened_in self) (m.writable self)
            inv)
          at out.close_calls in
      rw out.returns (once, once, rw out.struct (ended_shut (m.world.databases self) m.world.pid))
