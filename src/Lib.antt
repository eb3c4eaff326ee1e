-- ===== src/Lib.antt =====
-- The C extension of the sqlite3 gem (ext/sqlite3): the classes SQLite3::Database,
-- SQLite3::Statement and SQLite3::Backup over the sqlite3 library; and the methods of the gem's
-- Ruby code (lib/sqlite3) that prepare, execute and iterate over it.
--
-- The parts and how they interact. A Database object owns a connection; it opens it, closes it,
-- or, in a forked child, discards it (adr/2024-09-fork-safety.md). A Statement belongs to the
-- struct of a Database, reads its DISCARDED flag before it uses its handle, and clears the
-- deadline of its statement timeout when it is prepared. While a statement steps, SQLite calls
-- functions, aggregates, collations and hooks that are Ruby objects; the exceptions of functions
-- and aggregates wait in rb_errinfo until the step raises them, and those of the others leave
-- through SQLite. The garbage collector asks a Database what SQLite points to. A Backup copies
-- between two open Databases.
--
-- The files, with the code that each models:
--   Values, Env: Ruby values and exceptions; the sqlite3 library and the Ruby runtime as records
--     of answers. An answer is a function of the log of all calls made so far, so every library and
--     every program is an instance; only what the code relies on is asked of them.
--   Machine: the structs of database.h, statement.h, backup.h and the objects of aggregator.c, in
--     a store by address, and the commands over it: a method returns, raises, or runs into a fault.
--   Outcome: lemmas on how runs end.
--   Logs: what a log of calls says of the handles of statements, of connections and of backups, of
--     the hooks, and of the texts that were prepared.
--   Errors: ext/sqlite3/exception.c (Classes: status2klass; Raise: rb_sqlite3_raise,
--     rb_sqlite3_raise_msg, rb_sqlite3_raise_with_sql).
--   Integer: ext/sqlite3/sqlite3.c, bignum_to_int64 with rb_integer_pack (Pack) and by digits
--     (Digits).
--   Information: ext/sqlite3/sqlite3.c, libversion, threadsafe_p, rb_sqlite3_status.
--   Timespec: ext/sqlite3/timespec.h.
--   Database: ext/sqlite3/database.c (Flags, Open, Discard: opening, closing, discard_db; Hooks,
--     Timeout: tracer, busy handler, authorizer, progress handler; Conversion: values, functions,
--     collations; Queries; Batch: exec_batch; Mark: database_mark; Services, Histories: the lives of
--     all the objects of a program).
--   Statement: ext/sqlite3/statement.c (Guards, Prepare, Step, Bind, Columns, Stats) (Each: the
--     loop over its steps), and the lives of all the statements of a program (Histories).
--   Aggregator: ext/sqlite3/aggregator.c (Callbacks: xStep, xFinal and their instances; Define:
--     rb_sqlite3_define_aggregator2; Protocol: what a handler is promised, as a plain loop).
--   Callbacks: the calls of sqlite3_prepare_v2, sqlite3_step, sqlite3_reset, sqlite3_finalize,
--     sqlite3_exec and sqlite3_backup_step with the callbacks into database.c and aggregator.c that
--     they make (enter runs the call, its callbacks in order, and then reads the result; Functions:
--     what SQL functions do, as a plain loop; Kept, Keeping: what callbacks leave alone).
--   Backup: ext/sqlite3/backup.c (Methods), and the lives of all the backups of a program
--     (Histories).
--   Gem: lib/sqlite3/statement.rb (Metadata: initialize, columns, types; Binding: bind_params;
--     Execution: execute, execute!, each; Statistics: stat) and lib/sqlite3/resultset.rb (ResultSet,
--     and Statement.Each for next and each); lib/sqlite3/database.rb (Opening: initialize with its
--     options and extensions; Connection: prepare with a block, execute, commit, rollback,
--     transaction; Batch: execute_batch; Query: query, get_first_value, get_first_row; Quote:
--     quote). The others are proofs.
--   Structs: the tables by which the garbage collector treats the three structs.
--   Registration: Init_sqlite3_native of ext/sqlite3/sqlite3.c and the init_ functions, as the
--     list of the calls of Ruby's C API that they make (Calls: these calls, the registered functions
--     and the build; Methods, Library: the functions).
--   Fork: histories of Database objects over forks, after the constructor of
--     lib/sqlite3/database.rb; lib/sqlite3/fork_safety.rb (Tracked: track, discard), and the two
--     together (Constructed).
--   Roundtrip: values that cross the boundary in both directions.
--   Tests: the theorems at concrete inputs.
-- Functions and structs have their names from C (enable_load_extension_m is the method
-- enable_load_extension, and the structs go without the leading _sqlite3 and the trailing Ruby).
--
-- Bounds and fuel. The loop of discard_db over sqlite3_db_name has the fuel 128: a connection has
-- at most 127 databases, and HasFiles (Database.Lifecycle) asks that the names end below 128. The
-- loops of each, each_hash and execute take the number of rounds; more rounds than rows are enough
-- (Statement.Each). The loop of execute_batch takes the number of rounds as well; more rounds than
-- the text has bytes are enough (Gem.Draining). The other loops recurse on their lists or counts.
-- A Fixnum holds 62 bits and a sign (long has 8 bytes); BDIGIT has 32 bits; the machine is little-
-- endian. The optional functions of the library that extconf.rb looks for are there
-- (sqlite3_db_name, sqlite3_error_offset, sqlite3_prepare_v2, the statement counters).
--
-- Not modelled: of lib/sqlite3/database.rb the proxies of functions and aggregates, execute2,
-- execute_batch2, HashResultSets as results of these methods, and the methods that only pass a
-- block on; the values that a block of Statement#each kept when its StopIteration ended the loop,
-- and the value that the loop then has; the other Ruby files of lib/, and the build; callbacks
-- during any other call (an extension that is loaded may run SQL); failing allocations; when the
-- garbage collector runs; callbacks that use the very connection that is running them; the class
-- names inside two messages ("can't return", "can't prepare"), the key in "unknown key", and the
-- numbers in the message of a wrong arity.
mod Base
pub mod Values
pub mod Env
pub mod Machine
pub mod Outcome
pub mod Logs
pub mod Errors
pub mod Integer
pub mod Timespec
pub mod Information
pub mod Database
pub mod Statement
pub mod Structs
pub mod Gem
pub mod Registration
pub mod Roundtrip
pub mod Aggregator
pub mod Callbacks
pub mod Backup
pub mod Fork
mod Tests
