-- ===== src/Tests/Values.antt =====
-- The theorems about values, numbers, times and result codes, at concrete inputs.
use sqlite3_ruby.Base.{
  ℕ, ◌-◌, ◌^◌, ◌<◌, ◌≡◌, refl, false, some, List, [], ◌∷◌, if◌then◌else◌, All, arith, pos,
}
use sqlite3_ruby.Env.{SqlValue, double_datum, Timespec}
use sqlite3_ruby.Integer.Pack
use sqlite3_ruby.Integer.Pack.{ToInt64, Sign, pos_sign, neg_sign, InInt64}
use sqlite3_ruby.Integer.Digits
use sqlite3_ruby.Integer.Digits.{number, magnitude}
use sqlite3_ruby.Roundtrip.{
  HasType, and_back, answered, datum_of, is_big, func_result-sqlite3val2rb,
  bind_datum-sqlite3val2rb,
}
use sqlite3_ruby.Database.Conversion.{sqlite3val2rb, func_result}
use sqlite3_ruby.Statement.Bind.{bind_datum}
use sqlite3_ruby.Tests.Demo.{demo_rb, demo_pack, demo_pack-IsPack}

-- The largest integer of SQLite, a Bignum in Ruby.
abbrev large : SqlValue
large = record { type_code = 1; int64 = pos (2 ^ 63 - 1); double = 0; text = []; blob = [] }

large-HasType : HasType large
large-HasType = ground arith

large-InInt64 : InInt64 (pos (2 ^ 63 - 1))
large-InInt64 = ground arith

func_result-sqlite3val2rb_example :
    and_back (func_result ⦃rb = demo_rb⦄) (sqlite3val2rb large)
    ≡ some (if is_big large then double_datum 0 else datum_of large)
func_result-sqlite3val2rb_example = func_result-sqlite3val2rb ⦃rb = demo_rb⦄ large large-HasType

bind_datum-sqlite3val2rb_example :
    and_back (λ x. answered (bind_datum ⦃rb = demo_rb⦄ demo_pack x)) (sqlite3val2rb large)
    ≡ some (datum_of large)
bind_datum-sqlite3val2rb_example =
    bind_datum-sqlite3val2rb ⦃rb = demo_rb⦄ demo_pack large demo_pack-IsPack (λ b. refl)
      large-HasType large-InInt64

-- The number 2^63, which does not fit.
bignum_to_int64-ToInt64_example : ToInt64 (pos (2 ^ 63)) (Pack.bignum_to_int64 pos_sign (2 ^ 63))
bignum_to_int64-ToInt64_example =
    Pack.bignum_to_int64-ToInt64 (pos (2 ^ 63)) pos_sign (2 ^ 63) (demo_pack-IsPack (pos (2 ^ 63)))

-- The digits of the number -2^63, which fits.
abbrev least : List ℕ
least = 0 ∷ 2 ^ 31 ∷ []

least_small : All (λ d. d < 2 ^ 32) least
least_small = ground arith

least_normal : 0 < 2 ^ 31
least_normal = ground arith

bignum_to_int64_digits-ToInt64_example :
    ToInt64 (number false least) (Digits.bignum_to_int64 false least)
bignum_to_int64_digits-ToInt64_example =
    Digits.bignum_to_int64_digits-ToInt64 false least least_small least_normal

least_packed : Pack.IsPack (number false least) neg_sign (2 ^ 63)
unfolding number magnitude
least_packed = ground arith

abbrev early : Timespec
early = record { sec = 5; nsec = 999999999 }

abbrev late : Timespec
late = record { sec = 6; nsec = 0 }
