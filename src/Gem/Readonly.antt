-- ===== src/Gem/Readonly.antt =====
-- Proofs about @readonly, which the constructor stores (lib/sqlite3/database.rb), and the READONLY bit of the
-- struct (ext/sqlite3/database.c).
use sqlite3_ruby.Base.{
  ℕ, ◌≡◌, Bool, false, ◌||◌, Option, none, ℤ, arith, ap, ◌∙◌, sym, Bool-cases, inl, inr,
}
use sqlite3_ruby.Values.{Ptr, Bytes, Str, fixnum, returned, Answer-cases}
use sqlite3_ruby.Env.{Sqlite, Ruby}
use sqlite3_ruby.Machine.{
  World, Run, ok, raise, fault, out_of_fuel, Settles, Returns, and_then, final,
}
use sqlite3_ruby.Outcome.{Settles-cases, Returns-then}
use sqlite3_ruby.Errors.Raise.{rb_sqlite3_raise_msg}
use sqlite3_ruby.Database.Flags.{is_readonly, open_readonly}
use sqlite3_ruby.Database.Open.{
  is_utf16, rb_sqlite3_open_v2, rb_sqlite3_open16, rb_sqlite3_disable_quirk_mode, open_failed,
  utf16_string_value_ptr,
}
use sqlite3_ruby.Gem.Metadata.{utf8_text}
use sqlite3_ruby.Gem.Permissions.{KeepsDatabases, initialize_extensions-KeepsDatabases}
use sqlite3_ruby.Gem.Opening.{Options, open_mode, initialize_extensions, open_file, initialize}

-- NUM2INT of a Fixnum, where it returns, is its number.
abbrev pub ReadsNumbers : Ruby → Type 0
ReadsNumbers rb = (n m : ℤ) → rb.num2int (fixnum n) ≡ returned m → m ≡ n

-- The READONLY bit of the struct at `self` is `b`, and its owner is `owner`.
abbrev pub Tells : Ptr → ℕ → Bool → World → Type 0
Tells self owner b g = (b ≡ is_readonly (g.databases self)) × ((g.databases self).owner ≡ owner)

-- The run returns or raises; and where it returns, its result says what the READONLY bit at `self` says,
-- and the owner is `owner`.
abbrev pub TellsReadonly : {A : Type 0} → (A → Bool) → Ptr → ℕ → Run A → Type 0
TellsReadonly f self owner = Returns (λ a g. Tells self owner (f a) g)

open_mode-Settles : (o : Options) (w : World) → Settles (open_mode o w)
unfolding open_mode
open_mode-Settles o w = ground arith

open_mode_pure : (o : Options) (w : World) → final (open_mode o w) ≡ w
unfolding open_mode
open_mode_pure o w = ground arith

module _ ⦃lib : Sqlite⦄ ⦃rb : Ruby⦄ (self : Ptr) (w : World) (shut : (w.databases self).db ≡ none)
    (clear : (w.databases self).flags ≡ 0) where
  open16-TellsReadonly :
      (file : Str)
      → TellsReadonly (λ _. false) self (w.databases self).owner (rb_sqlite3_open16 self file w)
  unfolding rb_sqlite3_open16 open_failed rb_sqlite3_raise_msg utf16_string_value_ptr
  open16-TellsReadonly file = rw shut (ground arith)

  open_v2-TellsReadonly :
      (numbers : ReadsNumbers rb) (file : Bytes) (mode : ℤ) (zvfs : Option Bytes)
      → TellsReadonly
          (λ _. open_readonly mode)
          self
          (w.databases self).owner
          (rb_sqlite3_open_v2 self file (fixnum mode) zvfs w)
  unfolding rb_sqlite3_open_v2 open_failed rb_sqlite3_raise_msg
  open_v2-TellsReadonly numbers file mode zvfs = elim (Answer-cases (rb.num2int (fixnum mode))) [
    | inl (m, e) ↦ rw (shut, e, numbers mode m e) (ground arith)
    | inr (x, e) ↦ rw (shut, e) tt
  ]

  open_file-TellsReadonly :
      (numbers : ReadsNumbers rb) (file : Str) (o : Options) (zvfs : Option Bytes)
      → TellsReadonly open_readonly self (w.databases self).owner (open_file self file o zvfs w)
  unfolding open_file rb_sqlite3_disable_quirk_mode
  open_file-TellsReadonly numbers file o zvfs =
      elim (Bool-cases (is_utf16 file.encoding || o.utf16)) [
        | inl wide ↦ rw wide (
            Returns-then (λ _ v. Tells self (w.databases self).owner false v)
              (λ mode v. Tells self (w.databases self).owner (open_readonly mode) v)
              (rb_sqlite3_open16 self file w) _ (open16-TellsReadonly file) λ a v h. h)
        | inr narrow ↦ rw narrow (elim (Settles-cases (open_mode o w) (open_mode-Settles o w)) [
          | inl (mode, e) ↦
              rw (e, open_mode_pure o w)
                (elim (Answer-cases (utf8_text file)) [
                  | inl (name, read) ↦ rw read (
                      Returns-then
                        (λ _ v. Tells self (w.databases self).owner (open_readonly mode) v)
                        (λ m v. Tells self (w.databases self).owner (open_readonly m) v)
                        (rb_sqlite3_open_v2 self name (fixnum mode) zvfs w) _
                        (open_v2-TellsReadonly numbers name mode zvfs) λ a v h. ground arith)
                  | inr (x, read) ↦ rw read tt
                ])
          | inr (x, e) ↦ rw e tt
        ])
      ]

  extensions-TellsReadonly :
      (mode : ℤ) (m : Run (Unit {0})) (v : World)
      → Tells self (w.databases self).owner (open_readonly mode) v
      → KeepsDatabases v m
      → TellsReadonly
          (λ r. r)
          self
          (w.databases self).owner
          (and_then m (λ _. ok (open_readonly mode)))
  extensions-TellsReadonly mode (ok a u) v h k = (
    h.0 ∙ ap (λ f. is_readonly (f self)) (sym k.databases),
    ap (λ f. (f self).owner) k.databases ∙ h.1,
  )
  extensions-TellsReadonly mode (raise e u) v h k = tt
  extensions-TellsReadonly mode (fault u) v h k = absurd k.settles
  extensions-TellsReadonly mode (out_of_fuel u) v h k = absurd k.settles

  -- The constructor of a new Database, closed and with no flag set, where NUM2INT of a Fixnum is
  -- its number if it returns: whatever the name of the file, its encoding and the options are, it
  -- returns or raises, and where it returns, readonly? of the object is what the READONLY bit of
  -- its struct says, and the struct has the owner that it had.
  pub initialize-TellsReadonly :
      (numbers : ReadsNumbers rb) (file : Str) (o : Options) (zvfs : Option Bytes)
      → TellsReadonly (λ r. r) self (w.databases self).owner (initialize self file o zvfs w)
  unfolding initialize
  initialize-TellsReadonly numbers file o zvfs =
      Returns-then (λ mode v. Tells self (w.databases self).owner (open_readonly mode) v)
        (λ (r : Bool) v. Tells self (w.databases self).owner r v) (open_file self file o zvfs w) _
        (open_file-TellsReadonly numbers file o zvfs)
        λ mode v h.
          extensions-TellsReadonly mode (initialize_extensions self o.extensions v) v h
            (initialize_extensions-KeepsDatabases self o.extensions v)
