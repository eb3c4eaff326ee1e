-- ===== src/Gem/Executing.antt =====
-- Proofs about bind_params, execute and execute! (lib/sqlite3/statement.rb over ext/sqlite3/statement.c).
use sqlite3_ruby.Base.{
  ℕ, suc, length, ◌+◌, ◌<◌, ◌≡◌, refl, Bool, true, false, not, Option, none, List, [], ◌∷◌, map,
  ◌==◌, Bool-cases, inl, inr, ap, ◌∙◌, arith, pos, ==_refl,
}
use mathlib.Core.Path.{subst}
use sqlite3_ruby.Values.{Ptr, Bytes, Value, fixnum, returned, ll2num}
use sqlite3_ruby.Env.{Sqlite, Ruby, Log, Datum, bind_call, step_call, reset_call}
use sqlite3_ruby.Machine.{
  World, Run, M, ok, raise, fault, out_of_fuel, and_then, ◌>>=◌, ◌>>◌, pure, final, when,
}
use sqlite3_ruby.Logs.{prepares}
use sqlite3_ruby.Callbacks.{enter}
use sqlite3_ruby.Errors.Raise.{rb_sqlite3_raise}
use sqlite3_ruby.Errors.Classes.{status2klass}
use sqlite3_ruby.Database.Flags.{is_discarded}
use sqlite3_ruby.Statement.Guards.{live_stmt}
use sqlite3_ruby.Statement.Prepare.{done_p, reset_bang}
use sqlite3_ruby.Statement.Step.{step}
use sqlite3_ruby.Statement.Columns.{column_count}
use sqlite3_ruby.Statement.Bind.{Pack, bind_param, bind_datum, bind_index}
use sqlite3_ruby.Statement.Invariant.{with_done}
use sqlite3_ruby.Statement.Stepping.{IsLive, live-Kept, live_stmt-ok, step_end, step_again}
use sqlite3_ruby.Statement.Closing.{entered_call-Kept}
use sqlite3_ruby.Statement.Each.{Row}
use sqlite3_ruby.Gem.Binding.{
  Variables, Flat, value, hash, flatten, bind_pairs, bind_flat, bind_params,
}
use sqlite3_ruby.Gem.Execution.{
  is_active, is_empty, is_zero, execute, execute_bang, each_step, each_rounds, broken,
}

-- The calls that bind the data at the places from `i` on, the newest first.
abbrev pub bind_calls : Ptr → ℕ → List Datum → Log → Log
bind_calls st i [] log = log
bind_calls st i (d ∷ ds) log = bind_calls st (suc i) ds (bind_call st (pos i) d ∷ log)

-- NUM2INT of a Fixnum that fits an int.
abbrev pub ConvertsIndices : Ruby → Type 0
ConvertsIndices rb = (i : ℕ) → i < 2147483648 → rb.num2int (fixnum (pos i)) ≡ returned (pos i)

-- The library takes the data of the variables, one by one, at the places from `i` on.
abbrev pub Accepts :
    ⦃lib : Sqlite⦄ → ⦃rb : Ruby⦄ → Pack → Ptr → ℕ → List Value → List Datum → Log → Type 0
Accepts pack st i [] [] log = Unit {0}
Accepts ⦃lib⦄ pack st i (v ∷ vs) (d ∷ ds) log =
    (bind_datum pack v ≡ returned d)
    × (lib.status (bind_call st (pos i) d ∷ log) ≡ 0)
    × Accepts pack st (suc i) vs ds (bind_call st (pos i) d ∷ log)
Accepts pack st i _ _ log = ⊥

module _ ⦃lib : Sqlite⦄ ⦃rb : Ruby⦄ (pack : Pack) (self db st : Ptr)
    (indices : ConvertsIndices rb) where
  bind_one :
      (i : ℕ) (v : Value) (d : Datum) (w : World)
      → IsLive self db st w
      → 0 < i
      → i < 2147483648
      → bind_datum pack v ≡ returned d
      → lib.status (bind_call st (pos i) d ∷ w.log) ≡ 0
      → bind_param pack self (fixnum (pos i)) v w
        ≡ ok self (record w { log = bind_call st (pos i) d ∷ w.log })
  unfolding bind_param bind_index rb_sqlite3_raise status2klass
  bind_one i v d w live low high e accepted =
      let placed : (i == 0) ≡ false = ground arith in
      rw (live_stmt-ok live, indices i high, e, placed, accepted) refl

  bind_flat_calls :
      (i : ℕ) (vs : List Value) (ds : List Datum) (w : World)
      → IsLive self db st w
      → 0 < i
      → i + length vs < 2147483648
      → Accepts pack st i vs ds w.log
      → bind_flat pack self i (map value vs) w ≡ ok tt (record w { log = bind_calls st i ds w.log })
  unfolding bind_flat
  bind_flat_calls i [] [] w live low high a = refl
  bind_flat_calls i [] (d ∷ ds) w live low high a = absurd a
  bind_flat_calls i (v ∷ vs) [] w live low high a = absurd a
  bind_flat_calls i (v ∷ vs) (d ∷ ds) w live low high a =
      rw (bind_one i v d w live low (omega arith) a.0 a.1) (
        bind_flat_calls (suc i) vs ds (record w { log = bind_call st (pos i) d ∷ w.log })
          (record { prepared = live.prepared; open_stmt = live.open_stmt; live_db = live.live_db })
          (omega arith) (omega arith) a.2)

  -- bind_params of a usable statement with values that stand alone, however they are nested in Arrays,
  -- where the library takes the datum of each: it binds them in order to the places 1, 2, and so on,
  -- and does nothing else.
  pub bind_params_calls :
      (vars : Variables) (vs : List Value) (ds : List Datum) (w : World)
      → IsLive self db st w
      → flatten vars ≡ map value vs
      → length vs < 2147483647
      → Accepts pack st 1 vs ds w.log
      → bind_params pack self vars w ≡ ok tt (record w { log = bind_calls st 1 ds w.log })
  unfolding bind_params
  bind_params_calls vars vs ds w live flat few a =
      rw flat (bind_flat_calls 1 vs ds w live (omega arith) (omega arith) a)

-- The structs are the same, and no text was given to sqlite3_prepare_v2.
pub record SameStructs (w g : World) : Type 0 where
  pub statements : g.statements ≡ w.statements
  pub databases : g.databases ≡ w.databases
  pub remainders : g.remainders ≡ w.remainders
  pub texts : (sql : Bytes) → prepares sql g.log ≡ prepares sql w.log

SameStructs-refl : (w : World) → SameStructs w w
SameStructs-refl w = record {
  statements = refl;
  databases = refl;
  remainders = refl;
  texts = λ sql. refl;
}

SameStructs-trans : {u v w : World} → SameStructs u v → SameStructs v w → SameStructs u w
SameStructs-trans h k = record {
  statements = k.statements ∙ h.statements;
  databases = k.databases ∙ h.databases;
  remainders = k.remainders ∙ h.remainders;
  texts = λ sql. k.texts sql ∙ h.texts sql;
}

same_then :
    {A B : Type 0} (m : Run A) (k : A → M B) (w : World)
    → SameStructs w (final m)
    → ((a : A) (g : World) → SameStructs g (final (k a g)))
    → SameStructs w (final (and_then m k))
same_then (ok a g) k w h rest = SameStructs-trans h (rest a g)
same_then (raise e g) k w h rest = h
same_then (fault g) k w h rest = h
same_then (out_of_fuel g) k w h rest = h

-- Binding leaves the structs of the statements and of the databases alone.
module _ ⦃lib : Sqlite⦄ ⦃rb : Ruby⦄ (pack : Pack) (self : Ptr) where
  pub bind_param-SameStructs :
      (key val : Value) (w : World) → SameStructs w (final (bind_param pack self key val w))
  unfolding bind_param live_stmt rb_sqlite3_raise
  bind_param-SameStructs key val w = ground arith

  bind_pairs-SameStructs :
      (h : List (Value × Value)) (w : World) → SameStructs w (final (bind_pairs pack self h w))
  unfolding bind_pairs
  bind_pairs-SameStructs [] w = SameStructs-refl w
  bind_pairs-SameStructs ((key, val) ∷ rest) w =
      same_then (bind_param pack self key val w) _ w (bind_param-SameStructs key val w)
        λ _ g. bind_pairs-SameStructs rest g

  bind_flat-SameStructs :
      (i : ℕ) (vs : List Flat) (w : World) → SameStructs w (final (bind_flat pack self i vs w))
  unfolding bind_flat
  bind_flat-SameStructs i [] w = SameStructs-refl w
  bind_flat-SameStructs i (value v ∷ rest) w =
      same_then (bind_param pack self (fixnum (pos i)) v w) _ w (bind_param-SameStructs _ v w)
        λ _ g. bind_flat-SameStructs (suc i) rest g
  bind_flat-SameStructs i (hash h ∷ rest) w =
      same_then (bind_pairs pack self h w) _ w (bind_pairs-SameStructs h w)
        λ _ g. bind_flat-SameStructs i rest g

  when-SameStructs :
      (b : Bool) (m : M (Unit {0})) (w : World)
      → SameStructs w (final (m w))
      → SameStructs w (final (when b m w))
  when-SameStructs true m w h = h
  when-SameStructs false m w h = SameStructs-refl w

  pub bind_params-SameStructs :
      (vars : Variables) (w : World) → SameStructs w (final (bind_params pack self vars w))
  unfolding bind_params
  bind_params-SameStructs vars w = bind_flat-SameStructs 1 (flatten vars) w

  bound-SameStructs :
      (vars : Variables) (w g : World)
      → when (not (is_empty vars)) (bind_params pack self vars) w ≡ ok tt g
      → SameStructs w g
  bound-SameStructs vars w g e =
      subst (λ r. SameStructs w (final r)) e
        (when-SameStructs (not (is_empty vars)) (bind_params pack self vars) w
          (bind_params-SameStructs vars w))

module _ ⦃lib : Sqlite⦄ ⦃rb : Ruby⦄ (pack : Pack) (self db st : Ptr) (vars : Variables) (w : World)
    (live : IsLive self db st w)
    -- The state after reset!, and the state after the variables are bound.
    (code : ℕ) (u : World) (resetting : enter (reset_call st) w ≡ ok code u) where
  -- The state after reset!.
  abbrev rewound : World
  rewound = with_done self (u.statements self) false u

  -- execute of a usable statement always begins with reset!, also where it was never stepped, since
  -- active? is the opposite of done?.
  execute_resets :
      execute pack self vars w
      ≡ (when (not (is_empty vars)) (bind_params pack self vars)
            >> (do count ← column_count self; when (is_zero count) (do row ← step self; pure tt)))
          rewound
  unfolding execute is_active done_p reset_bang
  execute_resets = elim (Bool-cases (w.statements self).done_p) [
    | inl done ↦ rw (done, live_stmt-ok live, resetting)
    | inr more ↦ rw (more, live_stmt-ok live, resetting)
  ]

  live_rewound : IsLive self db st rewound
  live_rewound =
      let l = live-Kept (entered_call-Kept (ok code u) resetting) live in
      record {
        prepared = rw (==_refl self) l.prepared;
        open_stmt = rw (==_refl self) l.open_stmt;
        live_db = l.live_db;
      }

  live_bound : (b : World) → SameStructs rewound b → IsLive self db st b
  live_bound b same =
      let l = live_rewound in
      record {
        prepared = ap (λ f. (f self).db) same.statements ∙ l.prepared;
        open_stmt = ap (λ f. (f self).st) same.statements ∙ l.open_stmt;
        live_db = ap (λ f. is_discarded (f db)) same.databases ∙ l.live_db;
      }

  fresh_bound : (b : World) → SameStructs rewound b → (b.statements self).done_p ≡ false
  fresh_bound b same = ap (λ f. (f self).done_p) same.statements ∙ rw (==_refl self)

  -- execute! of a usable statement without columns, whose reset and whose binds return, and whose step
  -- meets SQLITE_DONE with no exception pending after its callbacks: the statement is executed once.
  -- The loop of each makes no second call of sqlite3_step, the block is not called, and the statement
  -- ends with done? set, in the state that the one step left.
  pub execute_bang_once :
      {S : Type 0} (fuel : ℕ) (block : S → Option Row → M S) (s : S) (b v : World)
      → when (not (is_empty vars)) (bind_params pack self vars) rewound ≡ ok tt b
      → lib.column_count b.log st ≡ 0
      → enter (step_call st) b ≡ ok 101 v
      → v.errinfo ≡ none
      → execute_bang (suc fuel) pack block self vars s w
        ≡ ok (broken s) (with_done self (b.statements self) true v)
  unfolding execute_bang each_step each_rounds column_count done_p ll2num
  execute_bang_once fuel block s b v bound no_columns stepping quiet =
      let same = bound-SameStructs pack self vars rewound b bound in
      let l = live_bound b same in
      let fresh = fresh_bound b same in
      rw
        (
          execute_resets,
          bound,
          live_stmt-ok l,
          no_columns,
          step_end self db st b l fresh 101 v stepping refl quiet,
          step_again self db st b l fresh 101 v stepping,
          ==_refl self,
        )
        refl
