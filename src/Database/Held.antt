-- ===== src/Database/Held.antt =====
-- What SQLite holds raw pointers to, after a log of calls, by the documentation of
-- sqlite3_create_function and sqlite3_create_collation: a registration that returned SQLITE_OK is kept.
use sqlite3_ruby.Base.{
  ◌≡◌, Bool, true, ◌&&◌, none, some, Option, List, [], ◌∷◌, ◌==◌, if◌then◌else◌, In,
}
use sqlite3_ruby.Values.{Ptr, Bytes, Value, hash_get}
use sqlite3_ruby.Env.{Sqlite, Log, create_function, create_aggregate, create_collation}
use sqlite3_ruby.Machine.{World}

-- Every block that was ever registered as a function: replaced ones are still counted.
unfoldable pub functions_held : Sqlite → Ptr → Log → List Value
functions_held lib db [] = []
functions_held lib db (create_function p name arity rep block ∷ log) =
    let rest = functions_held lib db log in
    if (p == db) && (lib.status (create_function p name arity rep block ∷ log) == 0)
    then block ∷ rest
    else rest
functions_held lib db (_ ∷ log) = functions_held lib db log

-- Every wrapper that was ever registered as an aggregate.
unfoldable pub aggregates_held : Sqlite → Ptr → Log → List Ptr
aggregates_held lib db [] = []
aggregates_held lib db (create_aggregate p name arity aw ∷ log) =
    let rest = aggregates_held lib db log in
    if (p == db) && (lib.status (create_aggregate p name arity aw ∷ log) == 0)
    then aw ∷ rest
    else rest
aggregates_held lib db (_ ∷ log) = aggregates_held lib db log

-- The comparator of the collation that the library finds under a name: the newest one. `same` is the
-- library's comparison of collation names, which ignores case.
unfoldable pub collation_held : Sqlite → (Bytes → Bytes → Bool) → Ptr → Bytes → Log → Option Value
collation_held lib same db name [] = none
collation_held lib same db name (create_collation p key comparator ∷ log) =
    let rest = collation_held lib same db name log in
    if (p == db) && (same key name && (lib.status (create_collation p key comparator ∷ log) == 0))
    then some comparator
    else rest
collation_held lib same db name (_ ∷ log) = collation_held lib same db name log

-- The struct at `self`, with the connection `db`, refers to all of this.
pub record Pinned (lib : Sqlite) (same : Bytes → Bytes → Bool) (self db : Ptr) (w : World)
    : Type 0 where
  pub connected : (w.databases self).db ≡ some db
  pub functions :
      (v : Value) → In v (functions_held lib db w.log) → In v (w.databases self).functions
  pub aggregators :
      (aw : Ptr) → In aw (aggregates_held lib db w.log) → In aw (w.databases self).aggregators
  pub collations :
      (name : Bytes) (v : Value)
      → collation_held lib same db name w.log ≡ some v
      → (key : Bytes) × (same key name ≡ true)
        × (hash_get key (w.databases self).collations ≡ some v)
