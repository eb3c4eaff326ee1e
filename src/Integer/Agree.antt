-- ===== src/Integer/Agree.antt =====
-- The two implementations of bignum_to_int64 (ext/sqlite3/sqlite3.c) against each other.
use sqlite3_ruby.Base.{ℕ, ◌<◌, ◌≡◌, Bool, Option, none, some, List, ap, sym, ◌∙◌, arith, All, ℤ}
use sqlite3_ruby.Integer.Pack
use sqlite3_ruby.Integer.Pack.{IsPack, InInt64, ToInt64, Sign}
use sqlite3_ruby.Integer.Digits
use sqlite3_ruby.Integer.Digits.{base, IsNormal, number}

-- The contract leaves one result.
ToInt64-unique : (v : ℤ) (a b : Option ℤ) → ToInt64 v a → ToInt64 v b → a ≡ b
ToInt64-unique v none none h k = ground arith
ToInt64-unique v none (some n) h k = absurd (h k.1)
ToInt64-unique v (some m) none h k = absurd (k h.1)
ToInt64-unique v (some m) (some n) h k = ap some (h.0 ∙ sym k.0)

-- For every Bignum, given by its sign and digits, the two implementations of bignum_to_int64 have
-- the same result, whatever rb_integer_pack answers for that number within its documentation.
pub bignum_to_int64_agree :
    (positive : Bool) (ds : List ℕ) (s : Sign) (word : ℕ)
    → All (λ d. d < base) ds
    → IsNormal ds
    → IsPack (number positive ds) s word
    → Pack.bignum_to_int64 s word ≡ Digits.bignum_to_int64 positive ds
bignum_to_int64_agree positive ds s word small normal packed =
    ToInt64-unique (number positive ds) _ _
      (Pack.bignum_to_int64-ToInt64 (number positive ds) s word packed)
      (Digits.bignum_to_int64_digits-ToInt64 positive ds small normal)
