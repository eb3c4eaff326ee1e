-- ===== src/Database/Opening16.antt =====
-- Proofs about rb_sqlite3_open16 (ext/sqlite3/database.c): what happens to the caller's string.
use sqlite3_ruby.Base.{ℕ, ◌≡◌, true, false, none, List, [], ◌∷◌, ◌++◌, ◌==◌, arith, any}
use sqlite3_ruby.Values.{Ptr, Str, Value, returned, arg_error, plain, lit}
use sqlite3_ruby.Env.{Sqlite, Ruby}
use sqlite3_ruby.Machine.{World, ok, raise}
use sqlite3_ruby.Database.Open.{open_failed, is_utf16, utf16_string_value_ptr, rb_sqlite3_open16}

-- The string object after it was given a terminator.
abbrev pub terminated : Str → Str
terminated s = record s { bytes = s.bytes ++ 0 ∷ 0 ∷ [] }

-- A UTF-16 string that ends with two zero bytes has the code point 0.
pub record EndsInNul (rb : Ruby) (s : Str) : Type 0 where
  pub points : List ℕ
  pub read : rb.codepoints (terminated s) ≡ returned points
  pub has_nul : any (λ c. c == 0) points ≡ true

module _ ⦃lib : Sqlite⦄ ⦃rb : Ruby⦄ (file : Str) (tagged : is_utf16 file.encoding ≡ true) where
  taken :
      (self : Ptr) (w v : World) (str : Str) {result : Value}
      → rb_sqlite3_open16 self file w ≡ ok (result, str) v
      → str ≡ terminated file
  unfolding rb_sqlite3_open16 utf16_string_value_ptr open_failed
  taken self w v str e = ground arith

  -- A UTF-16 file name that rb_sqlite3_open16 took was not frozen and has two zero bytes more
  -- afterwards, in the caller's string object; any later rb_sqlite3_open16 of a closed Database with that object raises an
  -- ArgumentError, and makes no call to the library.
  pub open16_again :
      (self other : Ptr) (w v g : World) (str : Str) {result : Value}
      → EndsInNul rb file
      → rb_sqlite3_open16 self file w ≡ ok (result, str) v
      → (g.databases other).db ≡ none
      → (file.frozen ≡ false)
        × (str ≡ terminated file)
        × (rb_sqlite3_open16 other str g
            ≡ raise (plain arg_error (lit "string contains null char")) g)
  unfolding rb_sqlite3_open16 utf16_string_value_ptr
  open16_again self other w v g str nul e shut =
      let same = taken self w v str e in
      (ground arith, same, rw (same, shut, tagged, nul.read, nul.has_nul))
