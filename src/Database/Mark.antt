-- ===== src/Database/Mark.antt =====
-- ext/sqlite3/database.c: the marking of what SQLite points to, database_mark. The result is the
-- list of values that rb_gc_mark is called on, less the arrays and the hash themselves. The
-- instances of a wrapper are those of aggregator.c.
use sqlite3_ruby.Base.{List, [], ◌∷◌, ◌++◌, map}
use sqlite3_ruby.Values.{Ptr, Bytes, Value}
use sqlite3_ruby.Machine.{Database}

pub data Marked : Type 0 where
  value : Value → Marked
  wrapper : Ptr → Marked
  instance_of : Ptr → Marked

-- rb_sqlite3_pin_array_and_contents, on an array of values.
unfoldable pub rb_sqlite3_pin_array_and_contents : List Value → List Marked
rb_sqlite3_pin_array_and_contents [] = []
rb_sqlite3_pin_array_and_contents (v ∷ ary) = value v ∷ rb_sqlite3_pin_array_and_contents ary

unfoldable pub pin_hash_and_contents : List (Bytes × Value) → List Marked
pin_hash_and_contents [] = []
pin_hash_and_contents ((k, v) ∷ hash) = value v ∷ pin_hash_and_contents hash

-- `instances` gives the live instances of each wrapper.
unfoldable pub rb_sqlite3_aggregator_pin_instances : (Ptr → List Ptr) → Ptr → List Marked
rb_sqlite3_aggregator_pin_instances instances aw = map instance_of (instances aw)

-- The second loop of pin_aggregators.
unfoldable pub pin_each : (Ptr → List Ptr) → List Ptr → List Marked
unfolding rb_sqlite3_aggregator_pin_instances
pin_each instances [] = []
pin_each instances (aw ∷ rest) =
    rb_sqlite3_aggregator_pin_instances instances aw ++ pin_each instances rest

unfoldable pub pin_aggregators : (Ptr → List Ptr) → List Ptr → List Marked
pin_aggregators instances aggregators = map wrapper aggregators ++ pin_each instances aggregators

unfoldable pub database_mark : (Ptr → List Ptr) → Database → List Marked
database_mark instances c =
    value c.busy_handler
    ∷ value c.trace_handler
    ∷ value c.authorizer
    ∷ (rb_sqlite3_pin_array_and_contents c.functions
        ++ (pin_hash_and_contents c.collations ++ pin_aggregators instances c.aggregators))
