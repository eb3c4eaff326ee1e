-- ===== src/Gem/Opening.antt =====
-- lib/sqlite3/database.rb: initialize, with its options, and initialize_extensions. A Pathname is its
-- path, and the block, results_as_hash and default_transaction_mode have no part in it.
use sqlite3_ruby.Base.{
  Bool, true, false, ◌&&◌, ◌||◌, Option, none, some, List, [], ◌∷◌, if◌then◌else◌, ℤ, pos,
}
use sqlite3_ruby.Values.{Ptr, Bytes, Str, qtrue, qfalse, fixnum, runtime_error, type_error}
use sqlite3_ruby.Env.{Sqlite, Ruby}
use sqlite3_ruby.Machine.{M, pure, ◌>>=◌, ◌>>◌, when, lift, rb_raise}
use sqlite3_ruby.Database.Flags.{open_readonly}
use sqlite3_ruby.Database.Open.{
  is_utf16, rb_sqlite3_open_v2, rb_sqlite3_open16, rb_sqlite3_disable_quirk_mode,
}
use sqlite3_ruby.Database.Queries.{load_extension_internal, enable_load_extension_m}
use sqlite3_ruby.Gem.Metadata.{utf8_text}
use sqlite3_ruby.Gem.Connection.{ensured}

-- A String, or what to_path gives; or any other object.
pub data Specifier : Type 0 where
  path : Bytes → Specifier
  invalid : Specifier

pub data Extensions : Type 0 where
  not_given not_array : Extensions
  array : List Specifier → Extensions

-- The options, as far as a test looks at them; a `flags` that is nil or false is none.
pub record Options : Type 0 where
  pub readonly : Bool
  pub readwrite : Bool
  pub flags : Option ℤ
  pub utf16 : Bool
  pub strict : Bool
  pub extensions : Extensions

-- READONLY, READWRITE, and READWRITE | CREATE.
abbrev pub mode_readonly : ℤ
mode_readonly = pos 1

abbrev pub mode_readwrite : ℤ
mode_readwrite = pos 2

abbrev pub mode_default : ℤ
mode_default = pos 6

-- The mode for open_v2.
unfoldable pub open_mode : Options → M ℤ
open_mode o = do
  let mode = if o.readonly then mode_readonly else mode_default
  when (o.readwrite && o.readonly)
      (rb_raise runtime_error "conflicting options: readonly and readwrite")
  let mode' = if o.readwrite then mode_readwrite else mode
  elim o.flags [
    | none ↦ pure mode'
    | some flags ↦ (do
      when (o.readonly || o.readwrite)
          (rb_raise runtime_error "conflicting options: flags with readonly and/or readwrite")
      pure flags)
  ]

module _ ⦃lib : Sqlite⦄ ⦃rb : Ruby⦄ where
  unfoldable pub load_extension : Ptr → Specifier → M (Unit {0})
  load_extension self (path file) = do db ← load_extension_internal self file; pure tt
  load_extension self invalid =
      rb_raise type_error
        "extension_specifier is not a String or a valid extension specifier object"

  -- `extensions.each`
  unfoldable pub load_extensions : Ptr → List Specifier → M (Unit {0})
  load_extensions self [] = pure tt
  load_extensions self (e ∷ extensions) = do load_extension self e; load_extensions self extensions

  abbrev pub switch_loading : Ptr → Bool → M (Unit {0})
  switch_loading self on = do
    db ← enable_load_extension_m self (if on then qtrue else qfalse)
    pure tt

  unfoldable pub initialize_extensions : Ptr → Extensions → M (Unit {0})
  initialize_extensions self not_given = pure tt
  initialize_extensions self not_array = rb_raise type_error "extensions must be an Array"
  initialize_extensions self (array []) = pure tt
  initialize_extensions self (array (e ∷ extensions)) = λ w.
      ensured ((switch_loading self true >> load_extensions self (e ∷ extensions)) w)
        (switch_loading self false)

  -- The branch that opens, and the mode.
  unfoldable pub open_file : Ptr → Str → Options → Option Bytes → M ℤ
  unfolding open_mode
  open_file self file o zvfs =
      if is_utf16 file.encoding || o.utf16
      then (do opened ← rb_sqlite3_open16 self file; pure mode_default)
      else (do
        mode ← open_mode o
        name ← lift (utf8_text file)
        opened ← rb_sqlite3_open_v2 self name (fixnum mode) zvfs
        when o.strict (do done ← rb_sqlite3_disable_quirk_mode self; pure tt)
        pure mode)

  -- The result is @readonly.
  unfoldable pub initialize : Ptr → Str → Options → Option Bytes → M Bool
  initialize self file o zvfs = do
    mode ← open_file self file o zvfs
    initialize_extensions self o.extensions
    pure (open_readonly mode)
