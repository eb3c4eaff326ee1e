-- ===== src/Values.antt =====
-- The Ruby values that cross the boundary of the extension, as far as it looks at them: their type
-- tag, their number or bytes, and the encoding of a string. LP64 is assumed (SIZEOF_LONG is 8), so
-- a Fixnum holds the integers from -2^62 to 2^62 - 1.
use Prim.Native.Char.{code}
use sqlite3_ruby.Base.{
  ℕ, ◌-◌, ◌^◌, Bool, true, false, ◌&&◌, Option, none, some, List, [], ◌∷◌, String, ◌≡◌, refl, arith,
  ◌==◌, ℤ, pos, negsuc, leb_ℤ, if◌then◌else◌, ◌⊎◌, inl, inr,
}

-- The bytes of a C string or of a Ruby string.
abbrev pub Bytes : Type 0
Bytes = List ℕ

-- The bytes of a text of the source.
abbrev pub ascii : String → Bytes
ascii String.[] = []
ascii (String.◌∷◌ c s) = code c ∷ ascii s

-- An address. NULL is `none` of `Option Ptr`.
abbrev pub Ptr : Type 0
Ptr = ℕ

pub data Encoding : Type 0 where
  utf8 usascii ascii8bit utf16le utf16be : Encoding
  other_encoding : ℕ → Encoding

-- A Ruby String: `blob` says that its class is SQLite3::Blob.
pub record Str : Type 0 where
  pub bytes : Bytes
  pub encoding : Encoding
  pub blob : Bool
  pub frozen : Bool

-- `float` holds the bits of a double; `object` is any other object, by its identity.
pub data Value : Type 0 where
  qnil qtrue qfalse : Value
  fixnum : ℤ → Value
  bignum : ℤ → Value
  float : ℕ → Value
  string : Str → Value
  symbol : Bytes → Value
  object : ℕ → Value

-- The exception classes that the extension names; `other_class` is any other.
pub data Class : Type 0 where
  sqlite3_exception sql_exception internal_exception permission_exception abort_exception : Class
  busy_exception locked_exception memory_exception read_only_exception : Class
  interrupt_exception io_exception corrupt_exception not_found_exception full_exception : Class
  cant_open_exception protocol_exception empty_exception schema_changed_exception : Class
  too_big_exception constraint_exception mismatch_exception misuse_exception : Class
  unsupported_exception authorization_exception format_exception range_exception : Class
  not_a_database_exception : Class
  arg_error type_error runtime_error fatal : Class
  other_class : ℕ → Class

-- A message written in the source, or a C string that sqlite hands over.
pub data Message : Type 0 where
  lit : String → Message
  c_str : Bytes → Message

-- An exception with the instance variables @code, @sql and @sql_offset.
pub record Exception : Type 0 where
  pub class_of : Class
  pub message : Message
  pub code : Option ℕ
  pub sql : Option Bytes
  pub sql_offset : Option ℤ

abbrev pub plain : Class → Message → Exception
plain c m = record { class_of = c; message = m; code = none; sql = none; sql_offset = none }

-- What a call into Ruby returns or raises.
pub data Answer (A : Type 0) : Type 0 where
  returned : A → Answer A
  raised : Exception → Answer A

pub Answer-cases :
    {A : Type 0} (a : Answer A) → ((x : A) × (a ≡ returned x)) ⊎ ((e : Exception) × (a ≡ raised e))
Answer-cases (returned x) = inl (x, refl)
Answer-cases (raised e) = inr (e, refl)

-- LL2NUM and INT2NUM.
abbrev pub fits_fixnum : ℤ → Bool
fits_fixnum n = leb_ℤ (negsuc (2 ^ 62 - 1)) n && leb_ℤ n (pos (2 ^ 62 - 1))

unfoldable pub ll2num : ℤ → Value
ll2num n = if fits_fixnum n then fixnum n else bignum n

-- rb_str_new and rb_utf8_str_new, before and after rb_obj_freeze.
abbrev pub str_new : Bytes → Str
str_new b = record { bytes = b; encoding = ascii8bit; blob = false; frozen = false }

abbrev pub utf8_str_new : Bytes → Str
utf8_str_new b = record { bytes = b; encoding = utf8; blob = false; frozen = false }

abbrev pub freeze : Str → Str
freeze s = record s { frozen = true }

-- RTEST and NIL_P.
abbrev pub rtest : Value → Bool
rtest qnil = false
rtest qfalse = false
rtest _ = true

abbrev pub nil_p : Value → Bool
nil_p qnil = true
nil_p _ = false

-- Equality of strings, as bytes.
unfoldable pub bytes_eq : Bytes → Bytes → Bool
bytes_eq [] [] = true
bytes_eq (a ∷ as') (b ∷ bs) = (a == b) && bytes_eq as' bs
bytes_eq _ _ = false

pub bytes_eq_refl : (b : Bytes) → bytes_eq b b ≡ true
unfolding bytes_eq
bytes_eq_refl [] = refl
bytes_eq_refl (a ∷ b) = ground (arith, bytes_eq_refl b)

pub eq_of_bytes_eq : (a b : Bytes) → bytes_eq a b ≡ true → a ≡ b
unfolding bytes_eq
eq_of_bytes_eq [] [] h = refl
eq_of_bytes_eq [] (b ∷ bs) h = cc
eq_of_bytes_eq (a ∷ as') [] h = cc
eq_of_bytes_eq (a ∷ as') (b ∷ bs) h = ground (arith, eq_of_bytes_eq as' bs)

-- rb_hash_aset on a Hash with String keys: a new key goes to the end, an old one keeps its place.
module _ {V : Type 0} where
  unfoldable pub hash_aset : Bytes → V → List (Bytes × V) → List (Bytes × V)
  hash_aset k v [] = (k, v) ∷ []
  hash_aset k v ((j, u) ∷ m) = if bytes_eq j k then (j, v) ∷ m else (j, u) ∷ hash_aset k v m

  unfoldable pub hash_get : Bytes → List (Bytes × V) → Option V
  hash_get k [] = none
  hash_get k ((j, u) ∷ m) = if bytes_eq j k then some u else hash_get k m

  pub hash_get-hash_aset :
      (k j : Bytes) (v : V) (m : List (Bytes × V))
      → hash_get j (hash_aset k v m) ≡ (if bytes_eq k j then some v else hash_get j m)
  unfolding hash_get hash_aset
  hash_get-hash_aset k j v [] = refl
  hash_get-hash_aset k j v ((i, u) ∷ m) = ground (
    arith,
    eq_of_bytes_eq k j,
    eq_of_bytes_eq i k,
    eq_of_bytes_eq i j,
    bytes_eq_refl k,
    bytes_eq_refl j,
    bytes_eq_refl i,
    hash_get-hash_aset k j v m,
  )
