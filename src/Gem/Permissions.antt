-- ===== src/Gem/Permissions.antt =====
-- Proofs about the options of Database.new (lib/sqlite3/database.rb over ext/sqlite3/database.c).
use sqlite3_ruby.Base.{
  ◌≡◌, refl, Bool, true, false, ◌&&◌, ◌||◌, Option, none, some, List, [], ◌∷◌, ◌==◌, if◌then◌else◌,
  ℤ, pos, negsuc, arith, ap, ◌∙◌, not, ==_refl,
}
use sqlite3_ruby.Values.{Ptr, Bytes, Str}
use sqlite3_ruby.Env.{Sqlite, Ruby, Log, enable_load_extension}
use sqlite3_ruby.Machine.{
  World, Run, M, ok, raise, fault, out_of_fuel, Settles, and_then, ◌>>◌, final,
}
use sqlite3_ruby.Errors.Raise.{rb_sqlite3_raise, rb_sqlite3_raise_msg}
use sqlite3_ruby.Errors.Classes.{status2klass}
use sqlite3_ruby.Database.Open.{is_utf16}
use sqlite3_ruby.Database.Queries.{load_extension_internal, enable_load_extension_m}
use sqlite3_ruby.Gem.Connection.{ensured}
use sqlite3_ruby.Gem.Opening.{
  Specifier, path, invalid, Extensions, not_given, not_array, array, Options, load_extension,
  load_extensions, switch_loading, initialize_extensions, open_file, initialize,
}

-- The options that initialize tests only where the name of the file is not in UTF-16.
abbrev pub without_permissions : Options → Options
without_permissions o = record o {
  readonly = false;
  readwrite = false;
  flags = none;
  strict = false;
}

-- With a name in UTF-16, or with utf16:, Database.new ignores the options readonly:, readwrite:, flags: and
-- strict:, the conflicts among them included, and the name of a VFS: it does what it does without them.
pub utf16_ignores_permissions :
    ⦃lib : Sqlite⦄ ⦃rb : Ruby⦄ (self : Ptr) (file : Str) (o : Options) (zvfs : Option Bytes)
    (w : World)
    → (is_utf16 file.encoding || o.utf16) ≡ true
    → initialize self file o zvfs w ≡ initialize self file (without_permissions o) none w
unfolding initialize open_file
utf16_ignores_permissions self file o zvfs w h = rw h refl

-- The switch of sqlite3_enable_load_extension.
abbrev switches_on : ℤ → Bool
switches_on (pos n) = not (n == 0)
switches_on (negsuc n) = true

-- Whether sqlite3_load_extension is switched on for the connection: the newest call that switched it
-- decides, where it returned SQLITE_OK. (The documentation of sqlite3_enable_load_extension.)
abbrev pub loading_enabled : ⦃lib : Sqlite⦄ → Ptr → Log → Bool
loading_enabled c [] = false
loading_enabled ⦃lib⦄ c (enable_load_extension p n ∷ log) =
    let rest = loading_enabled c log in
    if (p == c) && (lib.status (enable_load_extension p n ∷ log) == 0) then switches_on n else rest
loading_enabled c (_ ∷ log) = loading_enabled c log

-- The run ends with a value or an exception, and with the structs of the databases as they were.
pub record KeepsDatabases {A : Type 0} (w : World) (r : Run A) : Type 0 where
  pub settles : Settles r
  pub databases : (final r).databases ≡ w.databases

module _ ⦃lib : Sqlite⦄ ⦃rb : Ruby⦄ (self : Ptr) where
  load_extension-KeepsDatabases :
      (e : Specifier) (w : World) → KeepsDatabases w (load_extension self e w)
  unfolding load_extension load_extension_internal rb_sqlite3_raise_msg
  load_extension-KeepsDatabases (path file) w = ground arith
  load_extension-KeepsDatabases invalid w = record { settles = tt; databases = refl }

  KeepsDatabases-then :
      {A B : Type 0} (m : Run A) (k : A → M B) (w : World)
      → KeepsDatabases w m
      → ((a : A) (v : World) → v.databases ≡ w.databases → KeepsDatabases v (k a v))
      → KeepsDatabases w (and_then m k)
  KeepsDatabases-then (ok a v) k w h rest =
      let r = rest a v h.databases in
      record { settles = r.settles; databases = r.databases ∙ h.databases }
  KeepsDatabases-then (raise e v) k w h rest = record { settles = tt; databases = h.databases }
  KeepsDatabases-then (fault v) k w h rest = absurd h.settles
  KeepsDatabases-then (out_of_fuel v) k w h rest = absurd h.settles

  load_extensions-KeepsDatabases :
      (es : List Specifier) (w : World) → KeepsDatabases w (load_extensions self es w)
  unfolding load_extensions
  load_extensions-KeepsDatabases [] w = record { settles = tt; databases = refl }
  load_extensions-KeepsDatabases (e ∷ es) w =
      KeepsDatabases-then (load_extension self e w) _ w (load_extension-KeepsDatabases e w)
        λ _ v same. load_extensions-KeepsDatabases es v

  switch_loading-KeepsDatabases :
      (on : Bool) (w : World) → KeepsDatabases w (switch_loading self on w)
  unfolding enable_load_extension_m rb_sqlite3_raise
  switch_loading-KeepsDatabases on w = ground arith

  loaded-KeepsDatabases :
      (e : Specifier) (es : List Specifier) (w : World)
      → KeepsDatabases w ((switch_loading self true >> load_extensions self (e ∷ es)) w)
  loaded-KeepsDatabases e es w =
      KeepsDatabases-then (switch_loading self true w) _ w (switch_loading-KeepsDatabases true w)
        λ _ v same. load_extensions-KeepsDatabases (e ∷ es) v

  ensured-KeepsDatabases :
      (m : Run (Unit {0})) (w : World)
      → KeepsDatabases w m
      → KeepsDatabases w (ensured m (switch_loading self false))
  ensured-KeepsDatabases (ok a v) w k =
      KeepsDatabases-then (ok a v) (λ a. switch_loading self false >> ok a) w k
        λ a v same.
          KeepsDatabases-then (switch_loading self false v) _ v
            (switch_loading-KeepsDatabases false v)
            λ _ u _. record { settles = tt; databases = refl }
  ensured-KeepsDatabases (raise e v) w k =
      KeepsDatabases-then (ok tt v) (λ _. switch_loading self false >> raise e) w
        (record { settles = tt; databases = k.databases })
        λ a v same.
          KeepsDatabases-then (switch_loading self false v) _ v
            (switch_loading-KeepsDatabases false v)
            λ _ u _. record { settles = tt; databases = refl }
  ensured-KeepsDatabases (fault v) w k = absurd k.settles
  ensured-KeepsDatabases (out_of_fuel v) w k = absurd k.settles

  pub initialize_extensions-KeepsDatabases :
      (extensions : Extensions) (w : World)
      → KeepsDatabases w (initialize_extensions self extensions w)
  unfolding initialize_extensions
  initialize_extensions-KeepsDatabases not_given w = record { settles = tt; databases = refl }
  initialize_extensions-KeepsDatabases not_array w = record { settles = tt; databases = refl }
  initialize_extensions-KeepsDatabases (array []) w = record { settles = tt; databases = refl }
  initialize_extensions-KeepsDatabases (array (e ∷ es)) w =
      ensured-KeepsDatabases _ w (loaded-KeepsDatabases e es w)

module _ ⦃lib : Sqlite⦄ ⦃rb : Ruby⦄ (self c : Ptr) where
  switched_off :
      (v : World)
      → (v.databases self).db ≡ some c
      → ((log : Log) → lib.status (enable_load_extension c (pos 0) ∷ log) ≡ 0)
      → switch_loading self false v
        ≡ ok tt (record v { log = enable_load_extension c (pos 0) ∷ v.log })
  unfolding enable_load_extension_m rb_sqlite3_raise status2klass
  switched_off v h off = rw (h, off v.log)

  off_now :
      (log : Log)
      → ((l : Log) → lib.status (enable_load_extension c (pos 0) ∷ l) ≡ 0)
      → loading_enabled c (enable_load_extension c (pos 0) ∷ log) ≡ false
  off_now log off = rw (==_refl c, off log)

  -- Off after the cleanup, whatever came before.
  cleanup_off :
      (m : Run (Unit {0})) (w : World)
      → (w.databases self).db ≡ some c
      → ((log : Log) → lib.status (enable_load_extension c (pos 0) ∷ log) ≡ 0)
      → KeepsDatabases w m
      → loading_enabled c (final (ensured m (switch_loading self false))).log ≡ false
  cleanup_off (ok a v) w h off k =
      rw (switched_off v (ap (λ f. (f self).db) k.databases ∙ h) off) (off_now v.log off)
  cleanup_off (raise e v) w h off k =
      rw (switched_off v (ap (λ f. (f self).db) k.databases ∙ h) off) (off_now v.log off)
  cleanup_off (fault v) w h off k = absurd k.settles
  cleanup_off (out_of_fuel v) w h off k = absurd k.settles

  -- Where sqlite3_enable_load_extension takes the switch to off, as it always does, and loading is not
  -- switched on: after initialize_extensions of an open connection, whatever it was given, and whether it
  -- loaded all extensions or an exception ended it, loading is not switched on.
  pub initialize_extensions_off :
      (extensions : Extensions) (w : World)
      → (w.databases self).db ≡ some c
      → ((log : Log) → lib.status (enable_load_extension c (pos 0) ∷ log) ≡ 0)
      → loading_enabled c w.log ≡ false
      → loading_enabled c (final (initialize_extensions self extensions w)).log ≡ false
  unfolding initialize_extensions
  initialize_extensions_off not_given w h off before = before
  initialize_extensions_off not_array w h off before = before
  initialize_extensions_off (array []) w h off before = before
  initialize_extensions_off (array (e ∷ es)) w h off before =
      cleanup_off _ w h off (loaded-KeepsDatabases self e es w)
