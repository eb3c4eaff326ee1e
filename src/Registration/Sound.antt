-- ===== src/Registration/Sound.antt =====
-- Proofs about what the extension defines (Init_sqlite3_native in ext/sqlite3/sqlite3.c, and the
-- init_ functions): arities, and classes that exist before they are used.
use sqlite3_ruby.Base.{
  ℕ, ◌≡◌, refl, Bool, true, false, ◌&&◌, List, [], ◌∷◌, ◌++◌, ◌==◌, if◌then◌else◌, any, All, arith,
  ◌∙◌,
}
use sqlite3_ruby.Registration.Calls.{
  Holder, m_sqlite3, m_sqlite3_constants, m_sqlite3_open, c_sqlite3_blob, c_sqlite3_database,
  c_sqlite3_statement, c_sqlite3_backup, c_aggregator_wrapper, c_aggregator_instance, parameters,
  ApiCall, rb_define_module, rb_define_class_under, rb_define_module_under, rb_define_alloc_func,
  rb_define_method, rb_define_private_method, rb_define_singleton_method, rb_define_const,
  new_class, rb_gc_register_mark_object, sqlite3_initialize, Build, rb_c_string,
}
use sqlite3_ruby.Registration.Methods.{
  rb_sqlite3_aggregator_init, init_sqlite3_database, init_sqlite3_statement, init_sqlite3_backup,
}
use sqlite3_ruby.Registration.Library.{
  init_sqlite3_constants, library_methods, version_constants, init_sqlite3_native,
}

-- The arity that Ruby is told is the number of arguments that the C function takes.
abbrev pub IsSound : ApiCall → Type 0
IsSound (rb_define_method h name f arity) = arity ≡ parameters f
IsSound (rb_define_private_method h name f arity) = arity ≡ parameters f
IsSound (rb_define_singleton_method h name f arity) = arity ≡ parameters f
IsSound _ = Unit {0}

abbrev holder_id : Holder → ℕ
holder_id m_sqlite3 = 0
holder_id m_sqlite3_constants = 1
holder_id m_sqlite3_open = 2
holder_id c_sqlite3_blob = 3
holder_id c_sqlite3_database = 4
holder_id c_sqlite3_statement = 5
holder_id c_sqlite3_backup = 6
holder_id c_aggregator_wrapper = 7
holder_id c_aggregator_instance = 8

-- Whether a variable that the call reads was assigned, and the variables assigned after it.
abbrev pub is_held : List Holder → Holder → Bool
is_held held h = any (λ k. holder_id k == holder_id h) held

abbrev pub reads_held : List Holder → ApiCall → Bool
reads_held held (rb_define_module h name) = true
reads_held held (rb_define_class_under h outer name super) = is_held held outer
reads_held held (rb_define_module_under h outer name) = is_held held outer
reads_held held (rb_define_alloc_func h f) = is_held held h
reads_held held (rb_define_method h name f arity) = is_held held h
reads_held held (rb_define_private_method h name f arity) = is_held held h
reads_held held (rb_define_singleton_method h name f arity) = is_held held h
reads_held held (rb_define_const h name value) = is_held held h
reads_held held (new_class h) = true
reads_held held (rb_gc_register_mark_object h) = is_held held h
reads_held held sqlite3_initialize = true

abbrev pub holders : List Holder → ApiCall → List Holder
holders held (rb_define_module h name) = h ∷ held
holders held (rb_define_class_under h outer name super) = h ∷ held
holders held (rb_define_module_under h outer name) = h ∷ held
holders held (new_class h) = h ∷ held
holders held _ = held

-- No call reads a variable before it was assigned.
abbrev pub is_usable : List Holder → List ApiCall → Bool
is_usable held [] = true
is_usable held (c ∷ calls) = reads_held held c && is_usable (holders held c) calls

abbrev holders_after : List Holder → List ApiCall → List Holder
holders_after held [] = held
holders_after held (c ∷ calls) = holders_after (holders held c) calls

-- Calls from one set of assigned variables to another.
record Runs (held : List Holder) (calls : List ApiCall) (held' : List Holder) : Type 0 where
  sound : All IsSound calls
  usable : is_usable held calls ≡ true
  after : holders_after held calls ≡ held'

All-append : (xs ys : List ApiCall) → All IsSound xs → All IsSound ys → All IsSound (xs ++ ys)
All-append [] ys h k = k
All-append (x ∷ xs) ys h k = (h.0, All-append xs ys h.1 k)

usable-append :
    (held : List Holder) (xs ys : List ApiCall)
    → is_usable held xs ≡ true
    → is_usable (holders_after held xs) ys ≡ true
    → is_usable held (xs ++ ys) ≡ true
usable-append held [] ys h k = k
usable-append held (x ∷ xs) ys h k = ground (arith, usable-append (holders held x) xs ys)

after-append :
    (held : List Holder) (xs ys : List ApiCall)
    → holders_after held (xs ++ ys) ≡ holders_after (holders_after held xs) ys
after-append held [] ys = refl
after-append held (x ∷ xs) ys = after-append (holders held x) xs ys

Runs-append :
    {held held' held'' : List Holder} {xs ys : List ApiCall}
    → Runs held xs held'
    → Runs held' ys held''
    → Runs held (xs ++ ys) held''
Runs-append {held} {xs = xs} {ys = ys} r s = record {
  sound = All-append xs ys r.sound s.sound;
  usable = usable-append held xs ys r.usable (rw r.after s.usable);
  after = after-append held xs ys ∙ rw r.after s.after;
}

Runs-if :
    {held : List Holder} {xs : List ApiCall} (b : Bool)
    → Runs held xs held
    → Runs held (if b then xs else []) held
Runs-if true r = r
Runs-if false r = record { sound = tt; usable = refl; after = refl }

-- The variables that are assigned when the classes are defined.
abbrev at_start : List Holder
at_start = m_sqlite3_open ∷ m_sqlite3_constants ∷ c_sqlite3_blob ∷ m_sqlite3 ∷ []

abbrev with_database : List Holder
with_database = c_aggregator_instance ∷ c_aggregator_wrapper ∷ c_sqlite3_database ∷ at_start

abbrev with_statement : List Holder
with_statement = c_sqlite3_statement ∷ with_database

constants-Runs :
    (build : Build) → Runs (c_sqlite3_blob ∷ m_sqlite3 ∷ []) (init_sqlite3_constants build) at_start
unfolding init_sqlite3_constants
constants-Runs build = record { sound = ground arith; usable = ground arith; after = ground arith }

database-Runs : (build : Build) → Runs at_start (init_sqlite3_database build) with_database
unfolding init_sqlite3_database rb_sqlite3_aggregator_init
database-Runs build = record { sound = ground arith; usable = ground arith; after = ground arith }

statement-Runs : (build : Build) → Runs with_database (init_sqlite3_statement build) with_statement
unfolding init_sqlite3_statement
statement-Runs build = record { sound = ground arith; usable = ground arith; after = ground arith }

abbrev with_backup : Build → List Holder
with_backup build =
    if build.have_backup_init then c_sqlite3_backup ∷ with_statement else with_statement

backup-Runs :
    (build : Build)
    → Runs with_statement
        (if build.have_backup_init then init_sqlite3_backup else [])
        (with_backup build)
unfolding init_sqlite3_backup
backup-Runs build = record { sound = ground arith; usable = ground arith; after = ground arith }

library-Runs : (build : Build) → Runs (with_backup build) library_methods (with_backup build)
unfolding library_methods
library-Runs build = record { sound = ground arith; usable = ground arith; after = ground arith }

version-Runs :
    (build : Build) → Runs (with_backup build) (version_constants build) (with_backup build)
unfolding version_constants
version-Runs build = record { sound = ground arith; usable = ground arith; after = ground arith }

abbrev first_calls : List ApiCall
first_calls =
    rb_define_module m_sqlite3 "SQLite3"
    ∷ rb_define_class_under c_sqlite3_blob m_sqlite3 "Blob" rb_c_string
    ∷ []

first-Runs : Runs [] first_calls (c_sqlite3_blob ∷ m_sqlite3 ∷ [])
first-Runs = record { sound = ground arith; usable = refl; after = refl }

initialize-Runs :
    (build : Build) (held : List Holder)
    → Runs held (if build.have_initialize then sqlite3_initialize ∷ [] else []) held
initialize-Runs build held =
    Runs-if build.have_initialize (record { sound = ground arith; usable = refl; after = refl })

-- For every build: each method that the extension registers has the arity of its C function, and no
-- class, module or constant is used before it was defined.
pub init_sqlite3_native-IsSound :
    (build : Build)
    → All IsSound (init_sqlite3_native build) × (is_usable [] (init_sqlite3_native build) ≡ true)
unfolding init_sqlite3_native
init_sqlite3_native-IsSound build =
    let r : Runs [] (init_sqlite3_native build) (with_backup build) =
      Runs-append
        (Runs-append
          (Runs-append
            (Runs-append
              (Runs-append
                (Runs-append (Runs-append {xs = first_calls} first-Runs (initialize-Runs build _))
                  (constants-Runs build))
                (database-Runs build))
              (statement-Runs build))
            (backup-Runs build))
          (library-Runs build))
        (version-Runs build) in
    (r.sound, r.usable)
