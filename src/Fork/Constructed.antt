-- ===== src/Fork/Constructed.antt =====
-- A connection of Database.new, carried into a child, whose process runs discard (lib/sqlite3/database.rb,
-- lib/sqlite3/fork_safety.rb, ext/sqlite3/database.c).
use sqlite3_ruby.Base.{
  ℕ, ◌≡◌, ◌≢◌, refl, Bool, true, false, ◌||◌, none, Option, [], if◌then◌else◌, is_some, arith,
  ==_refl, sym, ◌∙◌,
}
use mathlib.Core.Path.{subst}
use sqlite3_ruby.Values.{Ptr, Bytes, Str}
use sqlite3_ruby.Env.{Sqlite, Ruby}
use sqlite3_ruby.Machine.{World, Database, ok}
use sqlite3_ruby.Database.Flags.{is_readonly, set_discarded}
use sqlite3_ruby.Database.Lifecycle.{closes, HasFiles}
use sqlite3_ruby.Database.Close.{closes_properly, ended}
use sqlite3_ruby.Gem.Opening.{Options, initialize}
use sqlite3_ruby.Gem.Readonly.{ReadsNumbers, Tells, TellsReadonly, initialize-TellsReadonly}
use sqlite3_ruby.Fork.Tracked.{ForkSafety, track, discard}
use sqlite3_ruby.Fork.Discarding.{Swept, tracks, discard-Swept}

-- What a process tracks that has one connection.
abbrev pub tracking_one : Ptr → Bool → ForkSafety
tracking_one self suppress = track self (record { databases = []; suppress = suppress })

-- The struct of a connection, discarded.
abbrev pub abandoned : Database → Database
abandoned d = set_discarded (record d { db = none })

tracks_self :
    (self : Ptr) (suppress : Bool) → tracks self (tracking_one self suppress).databases ≡ true
unfolding track
tracks_self self suppress = rw (==_refl self)

tracked_one :
    (self p : Ptr) (suppress : Bool)
    → tracks p (tracking_one self suppress).databases ≡ true
    → self ≡ p
unfolding track
tracked_one self p suppress h = ground (arith, h)

inherited_ended :
    (d : Database) (child : ℕ)
    → is_some d.db ≡ true
    → is_readonly d ≡ false
    → d.owner ≢ child
    → ended d child ≡ abandoned d
inherited_ended d child connected writable other = ground (arith, connected, writable, other)

inherited_other :
    (d : Database) (child : ℕ)
    → is_readonly d ≡ false
    → d.owner ≢ child
    → closes_properly d child ≡ false
inherited_other d child writable other = ground (arith, writable, other)

module _ ⦃lib : Sqlite⦄ ⦃rb : Ruby⦄ (files : (db : Ptr) → HasFiles lib db) where
  Swept-one :
      (self : Ptr) (suppress ro : Bool) (g u : World) (n : ℕ)
      → is_some (g.databases self).db ≡ true
      → ro ≡ is_readonly (g.databases self)
      → (g.databases self).owner ≢ g.pid
      → Swept (λ _. ro) (tracking_one self suppress).databases suppress g n u
      → (closes u.log ≡ closes g.log)
        × (u.databases self ≡ (if ro then g.databases self else abandoned (g.databases self)))
        × (n ≡ (if suppress || ro then 0 else 1))
  unfolding track
  Swept-one self suppress true g u n connected tells other s = (
    s.silent (λ p t r. absurd (ground (arith, r))),
    s.structs self ∙ rw (tracks_self self suppress) refl,
    ground (arith, s.warnings),
  )
  Swept-one self suppress false g u n connected tells other s = (
    s.silent (λ p t r.
        rw (← tracked_one self p suppress t)
          (inherited_other (g.databases self) g.pid (sym tells) other)),
    s.structs self
        ∙ rw (tracks_self self suppress)
            (inherited_ended (g.databases self) g.pid connected (sym tells) other),
    ground (arith, connected, s.warnings),
  )

  -- A program with one connection, where NUM2INT of a Fixnum is its number if it returns,
  -- sqlite3_db_name ends, and a successful sqlite3_file_control stores a file. The constructor of
  -- a new Database returned, with whatever name and options, with an open connection that belongs
  -- to the process that allocated it, and that process forked: discard in the child returns and
  -- forgets the connection, and calls no sqlite3_close_v2. If the object says that it is not read-
  -- only, its connection is discarded, with a warning unless warnings are suppressed; if it says
  -- that it is, its struct stays as it is, without a warning.
  pub inherited_connection :
      (self : Ptr) (file : Str) (o : Options) (zvfs : Option Bytes) (w g : World)
      (ro suppress : Bool) (child : ℕ)
      → (w.databases self).db ≡ none
      → (w.databases self).flags ≡ 0
      → (w.databases self).owner ≢ child
      → ReadsNumbers rb
      → initialize self file o zvfs w ≡ ok ro g
      → is_some (g.databases self).db ≡ true
      → let f = tracking_one self suppress in
        (n : ℕ) × (u : World) × (discard (λ _. ro) f (record g { pid = child })
          ≡ ok (n, record f { databases = [] }) u)
        × (closes u.log ≡ closes g.log)
        × (u.databases self ≡ (if ro then g.databases self else abandoned (g.databases self)))
        × (n ≡ (if suppress || ro then 0 else 1))
  unfolding track
  inherited_connection self file o zvfs w g ro suppress child shut clear other numbers made
        connected =
      let tells : Tells self (w.databases self).owner ro g =
        subst (λ r. TellsReadonly (λ b. b) self (w.databases self).owner r) made
          (initialize-TellsReadonly self w shut clear numbers file o zvfs) in
      let c = record g { pid = child } in
      let (n, u, e, s) = discard-Swept files (λ _. ro) (tracking_one self suppress) c in
      let (silent, struct, warned) =
        Swept-one self suppress ro c u n connected tells.0 (λ same. other (sym tells.1 ∙ same)) s in
      (n, u, e, silent, struct, warned)
