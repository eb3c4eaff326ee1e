-- ===== src/Statement/Bind.antt =====
-- ext/sqlite3/statement.c, bind_param.
use sqlite3_ruby.Base.{
  ℕ, Bool, true, false, ◌||◌, not, Option, none, some, [], ◌∷◌, ◌==◌, if◌then◌else◌, ℤ, pos, negsuc,
}
use sqlite3_ruby.Values.{
  Ptr, Bytes, Encoding, utf8, usascii, Value, qnil, fixnum, bignum, float, string, symbol,
  runtime_error, sqlite3_exception, Answer, returned, raised, plain, lit,
}
use sqlite3_ruby.Env.{
  Sqlite, Ruby, Log, Datum, null_datum, int64_datum, double_datum, text_datum, text16_datum,
  blob_datum, bind_call,
}
use sqlite3_ruby.Machine.{M, pure, ◌>>=◌, ◌>>◌, when, lift, rb_raise, log_now, invoke}
use sqlite3_ruby.Errors.Raise.{rb_sqlite3_raise}
use sqlite3_ruby.Integer.Pack.{Sign, bignum_to_int64}
use sqlite3_ruby.Database.Open.{is_utf16}
use sqlite3_ruby.Database.Conversion.{is_binary}
use sqlite3_ruby.Statement.Guards.{live_stmt}

-- RSTRING_PTR(key)[0] of an empty string is its terminator.
abbrev prefixed : Bytes → Bytes
prefixed [] = b':' ∷ []
prefixed (c ∷ key) = if c == b':' then c ∷ key else b':' ∷ c ∷ key

-- UTF8_P and USASCII_P
abbrev is_utf8 : Encoding → Bool
is_utf8 utf8 = true
is_utf8 _ = false

abbrev is_usascii : Encoding → Bool
is_usascii usascii = true
is_usascii _ = false

abbrev is_zero : ℤ → Bool
is_zero (pos n) = n == 0
is_zero (negsuc n) = false

-- What rb_integer_pack answers for each Bignum.
abbrev pub Pack : Type 0
Pack = ℤ → Sign × ℕ

module _ ⦃rb : Ruby⦄ (pack : Pack) where
  abbrev pub bignum_datum : ℤ → Option ℤ → Datum
  bignum_datum n (some num64) = int64_datum num64
  bignum_datum n none = double_datum (rb.num2dbl n)

  abbrev encode_datum : Answer Bytes → Answer Datum
  encode_datum (returned b) = returned (text_datum b)
  encode_datum (raised e) = raised e

  -- What the switch over TYPE(value) binds. Its default case raises, with the class in the message.
  unfoldable pub bind_datum : Value → Answer Datum
  unfolding bignum_to_int64
  bind_datum (string s) =
      if is_binary s
      then returned (blob_datum s.bytes)
      else if is_utf16 s.encoding
      then returned (text16_datum s.bytes)
      else if not (is_utf8 s.encoding) || not (is_usascii s.encoding)
      then encode_datum (rb.encode_utf8 s)
      else returned (text_datum s.bytes)
  bind_datum (bignum n) = returned (bignum_datum n (bignum_to_int64 (pack n).0 (pack n).1))
  bind_datum (float x) = returned (double_datum x)
  bind_datum (fixnum n) = returned (int64_datum n)
  bind_datum qnil = returned null_datum
  bind_datum _ = raised (plain runtime_error (lit "can't prepare"))

module _ ⦃lib : Sqlite⦄ ⦃rb : Ruby⦄ where
  -- The switch over TYPE(key).
  unfoldable pub bind_index : Log → Ptr → Value → Answer ℤ
  bind_index log st (symbol name) = returned (lib.bind_parameter_index log st (prefixed name))
  bind_index log st (string s) = returned (lib.bind_parameter_index log st (prefixed s.bytes))
  bind_index log st key = rb.num2int key

  unfoldable pub bind_param : Pack → Ptr → Value → Value → M Ptr
  bind_param pack self key value = do
    st ← live_stmt self
    log ← log_now
    index ← lift (bind_index log st key)
    when (is_zero index) (rb_raise sqlite3_exception "no such bind parameter")
    datum ← lift (bind_datum pack value)
    status ← invoke (bind_call st index datum)
    log' ← log_now
    rb_sqlite3_raise (lib.db_handle log' st) status
    pure self
