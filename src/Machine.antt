-- ===== src/Machine.antt =====
-- The state that the extension keeps (database.h, statement.h, backup.h), and the commands over it.
-- A method either returns, raises a Ruby exception, or runs into a fault (NULL is dereferenced, by
-- the code itself or by a library function that does not allow it). The state at that moment is kept
-- in each case. `out_of_fuel` is the end of a loop's fuel.
use sqlite3_ruby.Base.{
  ℕ, Bool, true, false, Option, none, some, List, ◌∷◌, String, ℤ, ◌==◌, if◌then◌else◌,
}
use sqlite3_ruby.Values.{Bytes, Ptr, Value, Class, lit, Exception, plain, Answer, returned, raised}
use sqlite3_ruby.Env.{Timespec, Call, ruby_call, Log, Sqlite, Ruby}

-- struct _sqlite3Ruby. `functions`, `collations` and `aggregators` are the Ruby arrays and the hash
-- that the struct points to.
pub record Database : Type 0 where
  pub db : Option Ptr
  pub busy_handler : Value
  pub functions : List Value
  pub collations : List (Bytes × Value)
  pub aggregators : List Ptr
  pub trace_handler : Value
  pub authorizer : Value
  pub stmt_timeout : ℤ
  pub stmt_deadline : Timespec
  pub owner : ℕ
  pub flags : ℕ

-- struct _sqlite3StmtRuby. `db` is the address of the database's struct.
pub record Statement : Type 0 where
  pub st : Option Ptr
  pub db : Option Ptr
  pub done_p : Bool

-- struct _sqlite3BackupRuby
pub record Backup : Type 0 where
  pub p : Option Ptr

-- An AggregatorWrapper and an AggregatorInstance (aggregator.c), with their instance variables.
pub record Wrapper : Type 0 where
  pub handler_klass : Value
  pub instances : List Ptr

pub record Instance : Type 0 where
  pub handler_instance : Value
  pub exc_status : ℕ

-- The VALUE that SQLite keeps for one execution of an aggregate: there is no memory for it yet, or it
-- is Qfalse (which is 0), Qnil, or an AggregatorInstance.
pub data Slot : Type 0 where
  no_memory : Slot
  slot_false : Slot
  slot_nil : Slot
  slot_instance : Ptr → Slot

-- The structs and objects by address, the next free address, the calls made so far, rb_errinfo, and
-- the process id. `columns`, `types` and `remainders` are the instance variables of SQLite3::Statement
-- (lib/sqlite3/statement.rb). `slots` goes by the address of the sqlite3_context.
pub record World : Type 0 where
  pub databases : Ptr → Database
  pub statements : Ptr → Statement
  pub backups : Ptr → Backup
  pub columns : Ptr → Option (List Value)
  pub types : Ptr → Option (List Value)
  pub remainders : Ptr → Value
  pub wrappers : Ptr → Wrapper
  pub instances : Ptr → Instance
  pub slots : Ptr → Slot
  pub fresh : Ptr
  pub log : Log
  pub errinfo : Option Exception
  pub pid : ℕ

pub data Run (A : Type 0) : Type 0 where
  ok : A → World → Run A
  raise : Exception → World → Run A
  fault : World → Run A
  out_of_fuel : World → Run A

-- The state in which a run ends.
abbrev pub final : {A : Type 0} → Run A → World
final (ok a w) = w
final (raise e w) = w
final (fault w) = w
final (out_of_fuel w) = w

-- The run ends with a value and a state of which `P` holds, or with an exception.
abbrev pub Returns : {A : Type 0} → (A → World → Type 0) → Run A → Type 0
Returns P (ok a w) = P a w
Returns P (raise e w) = Unit {0}
Returns P _ = ⊥

-- The run ends with a value or with an exception.
abbrev pub Settles : {A : Type 0} → Run A → Type 0
Settles = Returns (λ a w. Unit {0})

abbrev pub M : Type 0 → Type 0
M A = World → Run A

abbrev pub pure : {A : Type 0} → A → M A
pure = ok

module _ {A B : Type 0} where
  abbrev pub and_then : Run A → (A → M B) → Run B
  and_then (ok a w) k = k a w
  and_then (raise e w) k = raise e w
  and_then (fault w) k = fault w
  and_then (out_of_fuel w) k = out_of_fuel w

  infixl 5 ◌>>=◌ ◌>>◌
  abbrev pub ◌>>=◌ : M A → (A → M B) → M B
  ◌>>=◌ m k w = and_then (m w) k

  abbrev pub ◌>>◌ : M A → M B → M B
  ◌>>◌ m k w = and_then (m w) (λ _. k)

abbrev pub rb_raise : {A : Type 0} → Class → String → M A
rb_raise c s w = raise (plain c (lit s)) w

abbrev pub when : Bool → M (Unit {0}) → M (Unit {0})
when true m w = m w
when false m w = ok tt w

abbrev pub lift : {A : Type 0} → Answer A → M A
lift (returned a) w = ok a w
lift (raised e) w = raise e w

abbrev pub deref : {A : Type 0} → Option A → M A
deref none w = fault w
deref (some a) w = ok a w

abbrev pub update : {A : Type 0} → (Ptr → A) → Ptr → A → Ptr → A
update f p a q = if q == p then a else f q

-- TypedData_Get_Struct, and a write through the pointer.
abbrev pub database : Ptr → M Database
database self w = ok (w.databases self) w

abbrev pub set_database : Ptr → Database → M (Unit {0})
set_database self d w = ok tt (record w { databases = update w.databases self d })

abbrev pub statement : Ptr → M Statement
statement self w = ok (w.statements self) w

abbrev pub set_statement : Ptr → Statement → M (Unit {0})
set_statement self s w = ok tt (record w { statements = update w.statements self s })

abbrev pub backup : Ptr → M Backup
backup self w = ok (w.backups self) w

abbrev pub set_backup : Ptr → Backup → M (Unit {0})
set_backup self b w = ok tt (record w { backups = update w.backups self b })

abbrev pub log_now : M Log
log_now w = ok w.log w

abbrev pub getpid : M ℕ
getpid w = ok w.pid w

-- A call whose result the code ignores, and one whose status it reads.
abbrev pub invoke_ : Call → M (Unit {0})
invoke_ c w = ok tt (record w { log = c ∷ w.log })

abbrev pub invoke : ⦃lib : Sqlite⦄ → Call → M ℕ
invoke ⦃lib⦄ c w = ok (lib.status (c ∷ w.log)) (record w { log = c ∷ w.log })

-- rb_protect: an exception is kept in rb_errinfo, and the result is `none`.
abbrev pub caught : {A : Type 0} → Run A → Run (Option A)
caught (ok a w) = ok (some a) w
caught (raise e w) = ok none (record w { errinfo = some e })
caught (fault w) = fault w
caught (out_of_fuel w) = out_of_fuel w

abbrev pub protect : {A : Type 0} → M A → M (Option A)
protect m w = caught (m w)

-- rb_funcall: the exception, if there is one, goes through.
abbrev pub funcall : ⦃rb : Ruby⦄ → Value → Bytes → List Value → M Value
funcall ⦃rb⦄ v method args w =
    let log = ruby_call v method args ∷ w.log in lift (rb.funcall log) (record w { log = log })
