-- ===== src/Integer/Digits.antt =====
-- ext/sqlite3/sqlite3.c, bignum_to_int64 without rb_integer_pack: it reads the digits of the Bignum,
-- least significant first. A BDIGIT has 32 bits (SIZEOF_BDIGITS is 4), so 63 / 32 + 1 is 2 and the
-- largest top digit is 1 << 31.
use sqlite3_ruby.Base.{
  ℕ, zero, suc, ◌+◌, ◌-◌, ◌*◌, ◌^◌, ◌<◌, Bool, true, false, ◌||◌, not, Option, none, some, List, [],
  ◌∷◌, arith, ltb, ◌==◌, if◌then◌else◌, length, All, ℤ, pos, sub_ℕ,
}
use sqlite3_ruby.Integer.Pack.{ToInt64}

abbrev pub base : ℕ
base = 2 ^ 32

-- digits[i]
digit : List ℕ → ℕ → ℕ
digit [] i = 0
digit (d ∷ ds) zero = d
digit (d ∷ ds) (suc i) = digit ds i

-- `while (i) { if (digits[--i]) { return 0; } }` : whether it returns.
nonzero_below : List ℕ → ℕ → Bool
unfolding digit
nonzero_below ds zero = false
nonzero_below ds (suc i) = not (digit ds i == 0) || nonzero_below ds i

-- The value of the digits, and the Integer that they stand for with the sign.
unfoldable pub magnitude : List ℕ → ℕ
magnitude [] = 0
magnitude (d ∷ ds) = d + base * magnitude ds

unfoldable pub number : Bool → List ℕ → ℤ
unfolding magnitude
number true ds = pos (magnitude ds)
number false ds = sub_ℕ 0 (magnitude ds)

-- NUM2LL of a number in range is the number.
unfoldable pub bignum_to_int64 : Bool → List ℕ → Option ℤ
unfolding digit nonzero_below number
bignum_to_int64 positive ds =
    let len = length ds in
    let blast = digit ds (len - 1) in
    let bmax : ℕ = 2 ^ 31 in
    if len == 0
    then some (pos 0)
    else if ltb 2 len
    then none
    else if len == 2
    then (if ltb bmax blast
        then none
        else if blast == bmax
        then (if positive
            then none
            else if nonzero_below ds (len - 1)
            then none
            else some (number positive ds))
        else some (number positive ds))
    else some (number positive ds)

-- No leading zero.
abbrev pub IsNormal : List ℕ → Type 0
IsNormal [] = Unit
IsNormal (d ∷ []) = 0 < d
IsNormal (d ∷ e ∷ ds) = IsNormal (e ∷ ds)

magnitude_pos : (d : ℕ) (ds : List ℕ) → IsNormal (d ∷ ds) → 0 < magnitude (d ∷ ds)
unfolding magnitude
magnitude_pos d [] h = omega arith
magnitude_pos d (e ∷ ds) h = omega (arith, magnitude_pos e ds h)

-- For the digits of a Bignum, below 2^32 each and with no leading zero, bignum_to_int64 gives the
-- number itself where it is an int64, and refuses where it is not.
pub bignum_to_int64_digits-ToInt64 :
    (positive : Bool) (ds : List ℕ)
    → All (λ d. d < base) ds
    → IsNormal ds
    → ToInt64 (number positive ds) (bignum_to_int64 positive ds)
unfolding bignum_to_int64
bignum_to_int64_digits-ToInt64 positive [] small normal = ground arith
bignum_to_int64_digits-ToInt64 positive (a ∷ []) small normal = ground arith
bignum_to_int64_digits-ToInt64 positive (a ∷ b ∷ []) small normal = ground arith
bignum_to_int64_digits-ToInt64 positive (a ∷ b ∷ c ∷ ds) small normal =
    ground (arith, magnitude_pos c ds normal)
