-- ===== src/Database/Marking.antt =====
-- The garbage collector never frees or moves what SQLite points to (ext/sqlite3/database.c,
-- aggregator.c, database_mark), after any sequence of registrations.
use sqlite3_ruby.Base.{
  All, ◌≡◌, Bool, inr, List, [], ◌∷◌, ◌++◌, none, some, Option, In, In-append_left, In-append_right,
  In-map, map, arith,
}
use sqlite3_ruby.Values.{Ptr, Bytes, Value}
use sqlite3_ruby.Env.{Sqlite, Ruby, Log}
use sqlite3_ruby.Machine.{World, Database, final}
use sqlite3_ruby.Errors.Classes.{IsResultCode}
use sqlite3_ruby.Database.Conversion.{define_function_with_flags, collation}
use sqlite3_ruby.Aggregator.Define.{rb_sqlite3_define_aggregator2}
use sqlite3_ruby.Database.Held.{functions_held, aggregates_held, collation_held, Pinned}
use sqlite3_ruby.Database.Pinning.{define_function-Pinned, collation-Pinned}
use sqlite3_ruby.Database.AggregatePinning.{define_aggregator2-Pinned}
use sqlite3_ruby.Database.Members.{
  In-pin_array, In-pin_hash, In-pin_each, All-of-In, IsMarked, IsMarked-of,
}
use sqlite3_ruby.Database.Mark.{
  instance_of, Marked, value, wrapper, database_mark, rb_sqlite3_pin_array_and_contents,
  pin_hash_and_contents, pin_aggregators,
}

-- A registration that a program asks for.
pub data Request : Type 0 where
  function_request : Bytes → Value → Value → Request
  collation_request : Bytes → Value → Request
  aggregator_request : Value → Bytes → Request

module _ ⦃lib : Sqlite⦄ ⦃rb : Ruby⦄ (self : Ptr) where
  -- The state after a request, returned or raised.
  unfoldable pub perform : Request → World → World
  perform (function_request name flags block) w =
      final (define_function_with_flags self name flags block w)
  perform (collation_request name comparator) w = final (collation self name comparator w)
  perform (aggregator_request aggregator name) w =
      final (rb_sqlite3_define_aggregator2 self aggregator name w)

  unfoldable pub perform_all : List Request → World → World
  perform_all [] w = w
  perform_all (r ∷ rs) w = perform_all rs (perform r w)

module _ ⦃lib : Sqlite⦄ ⦃rb : Ruby⦄ (same : Bytes → Bytes → Bool)
    (codes : (log : Log) → IsResultCode (lib.status log)) (self db : Ptr) where
  perform-Pinned :
      (r : Request) (w : World)
      → Pinned lib same self db w
      → Pinned lib same self db (perform self r w)
  unfolding perform
  perform-Pinned (function_request name flags block) w p =
      define_function-Pinned same codes self db w p name flags block
  perform-Pinned (collation_request name comparator) w p =
      collation-Pinned same codes self db w p name comparator
  perform-Pinned (aggregator_request aggregator name) w p =
      define_aggregator2-Pinned same codes self db w p aggregator name

  perform_all-Pinned :
      (rs : List Request) (w : World)
      → Pinned lib same self db w
      → Pinned lib same self db (perform_all self rs w)
  unfolding perform_all
  perform_all-Pinned [] w p = p
  perform_all-Pinned (r ∷ rs) w p = perform_all-Pinned rs (perform self r w) (perform-Pinned r w p)

-- What SQLite holds after a log, the instances of its aggregates among it, in the list of what is
-- marked.
pub record AllMarked (lib : Sqlite) (same : Bytes → Bytes → Bool) (instances : Ptr → List Ptr)
    (db : Ptr) (log : Log) (marked : List Marked) : Type 0 where
  pub functions : All (λ v. In (value v) marked) (functions_held lib db log)
  pub aggregators : All (λ aw. In (wrapper aw) marked) (aggregates_held lib db log)
  pub collations : (name : Bytes) → IsMarked marked (collation_held lib same db name log)
  pub live :
      All (λ aw. All (λ i. In (instance_of i) marked) (instances aw)) (aggregates_held lib db log)

no_collation : (o : Option Value) (v : Value) → o ≡ none → o ≡ some v → ⊥
no_collation o v e h = ground arith

module _ ⦃lib : Sqlite⦄ ⦃rb : Ruby⦄ (same : Bytes → Bytes → Bool)
    (codes : (log : Log) → IsResultCode (lib.status log)) (self db : Ptr) where
  -- The part of the mark list from the functions on is reached from the head by three steps.
  pinned_part :
      (d : Database) (instances : Ptr → List Ptr) (x : Marked)
      → In x (
          rb_sqlite3_pin_array_and_contents d.functions
          ++ (pin_hash_and_contents d.collations ++ pin_aggregators instances d.aggregators))
      → In x (database_mark instances d)
  unfolding database_mark
  pinned_part d instances x h = inr (inr (inr h))

  -- A connection for which nothing was registered yet.
  Pinned-start :
      (w : World)
      → (w.databases self).db ≡ some db
      → functions_held lib db w.log ≡ []
      → aggregates_held lib db w.log ≡ []
      → ((name : Bytes) → collation_held lib same db name w.log ≡ none)
      → Pinned lib same self db w
  Pinned-start w connected no_functions no_aggregates no_collations = record {
    connected = connected;
    functions = λ v. rw no_functions (λ h. absurd h);
    aggregators = λ aw. rw no_aggregates (λ h. absurd h);
    collations = λ name v h. absurd (no_collation _ v (no_collations name) h);
  }

  -- Whatever functions, collations and aggregates a program registers on an open connection that has
  -- none yet, in whatever order and with whatever answers of Ruby and result codes of the library,
  -- each object that SQLite then holds a pointer to is marked by database_mark, and so are the live
  -- instances of each aggregate that it holds: the garbage collector neither frees nor moves them.
  pub perform_all-AllMarked :
      (instances : Ptr → List Ptr) (rs : List Request) (w : World)
      → (w.databases self).db ≡ some db
      → functions_held lib db w.log ≡ []
      → aggregates_held lib db w.log ≡ []
      → ((name : Bytes) → collation_held lib same db name w.log ≡ none)
      → let g = perform_all self rs w in
        AllMarked lib same instances db g.log (database_mark instances (g.databases self))
  unfolding pin_aggregators
  perform_all-AllMarked instances rs w connected no_functions no_aggregates no_collations =
      let g = perform_all self rs w in
      let d = g.databases self in
      let q =
        perform_all-Pinned same codes self db rs w
          (Pinned-start w connected no_functions no_aggregates no_collations) in
      let functions = rb_sqlite3_pin_array_and_contents d.functions in
      let collations = pin_hash_and_contents d.collations in
      let marked = database_mark instances d in
      record {
        functions =
            All-of-In (λ v. In (value v) marked) _
              (λ v h.
                pinned_part d instances (value v)
                  (In-append_left _ functions _ (In-pin_array v _ (q.functions v h))));
        aggregators =
            All-of-In (λ aw. In (wrapper aw) marked) _
              (λ aw h. pinned_part d instances (wrapper aw) (
                In-append_right _ functions _ (
                  In-append_right _ collations _ (
                    In-append_left _ (map wrapper d.aggregators) _
                      (In-map wrapper aw d.aggregators (q.aggregators aw h))))));
        collations = λ name. IsMarked-of marked _ (λ v h.
            let (key, found, bound) = q.collations name v h in
            pinned_part d instances (value v) (
              In-append_right _ functions _
                (In-append_left _ collations _ (In-pin_hash key v d.collations bound))));
        live =
            All-of-In (λ aw. All (λ i. In (instance_of i) marked) (instances aw)) _
              (λ aw h.
                All-of-In (λ i. In (instance_of i) marked) _
                  (λ i is_live. pinned_part d instances (instance_of i) (
                    In-append_right _ functions _ (
                      In-append_right _ collations _ (
                        In-append_right _ (map wrapper d.aggregators) _ (
                          In-pin_each instances aw i d.aggregators (q.aggregators aw h)
                            is_live))))));
      }
