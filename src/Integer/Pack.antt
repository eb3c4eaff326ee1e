-- ===== src/Integer/Pack.antt =====
-- ext/sqlite3/sqlite3.c, bignum_to_int64 with rb_integer_pack. The call packs the two's complement
-- of the number into one 64-bit word and returns its sign, doubled on overflow; `IsPack` is what
-- Ruby documents of it.
use sqlite3_ruby.Base.{
  ap, ℕ, ◌-◌, ◌^◌, ◌<◌, ◌≡◌, Option, none, some, arith, ltb, if◌then◌else◌, ℤ, pos, negsuc, ◌≤ℤ◌,
  ◌<ℤ◌,
}

-- The int64_t that a 64-bit word stands for.
abbrev pub signed64 : ℕ → ℤ
signed64 word = if ltb word (2 ^ 63) then pos word else negsuc (2 ^ 64 - word - 1)

-- The result of rb_integer_pack: -2, -1, 0, 1 or 2.
pub data Sign : Type 0 where
  neg_overflow neg_sign zero_sign pos_sign pos_overflow : Sign

-- `none` is the result 0, `some n` the result 1 with `*result = n`. `nails` is 0.
unfoldable pub bignum_to_int64 : Sign → ℕ → Option ℤ
bignum_to_int64 neg_overflow word = none
bignum_to_int64 pos_overflow word = none
bignum_to_int64 pos_sign word = if ltb word (2 ^ 63) then some (signed64 word) else none
bignum_to_int64 neg_sign word = if ltb word (2 ^ 63) then none else some (signed64 word)
bignum_to_int64 zero_sign word = some (signed64 word)

-- What ruby documents of rb_integer_pack(value, &word, 1, 8, 0, ... | INTEGER_PACK_2COMP).
abbrev pub IsPack : ℤ → Sign → ℕ → Type 0
IsPack v neg_overflow word = v <ℤ negsuc (2 ^ 64 - 1)
IsPack (pos n) neg_sign word = ⊥
IsPack (negsuc n) neg_sign word = (n < 2 ^ 64) × (word ≡ 2 ^ 64 - 1 - n)
IsPack v zero_sign word = (v ≡ pos 0) × (word ≡ 0)
IsPack (pos n) pos_sign word = (0 < n) × (n < 2 ^ 64) × (word ≡ n)
IsPack (negsuc n) pos_sign word = ⊥
IsPack v pos_overflow word = pos (2 ^ 64) ≤ℤ v

-- The integers of a sqlite3_int64.
abbrev pub InInt64 : ℤ → Type 0
InInt64 v = (negsuc (2 ^ 63 - 1) ≤ℤ v) × (v ≤ℤ pos (2 ^ 63 - 1))

-- What bignum_to_int64 promises: the number itself where it fits, and a refusal where it does not.
abbrev pub ToInt64 : ℤ → Option ℤ → Type 0
ToInt64 v (some n) = (n ≡ v) × InInt64 v
ToInt64 v none = ¬ InInt64 v

module _ (word : ℕ) where
  pack_pos : (n : ℕ) (s : Sign) → IsPack (pos n) s word → ToInt64 (pos n) (bignum_to_int64 s word)
  unfolding bignum_to_int64
  pack_pos n neg_sign h = absurd h
  pack_pos n _ h = ground arith

  pack_neg :
      (n : ℕ) (s : Sign) → IsPack (negsuc n) s word → ToInt64 (negsuc n) (bignum_to_int64 s word)
  unfolding bignum_to_int64
  pack_neg n pos_sign h = absurd h
  pack_neg n _ h = ground arith

-- Whatever sign and word rb_integer_pack answers for the Integer `v`, bignum_to_int64 gives `v`
-- itself and `v` is an int64, or it refuses and `v` is outside the range of an int64.
pub bignum_to_int64-ToInt64 :
    (v : ℤ) (s : Sign) (word : ℕ) → IsPack v s word → ToInt64 v (bignum_to_int64 s word)
bignum_to_int64-ToInt64 (pos n) s word h = pack_pos word n s h
bignum_to_int64-ToInt64 (negsuc n) s word h = pack_neg word n s h

-- In the range of an int64 the number comes back.
pub bignum_to_int64_in_range :
    (v : ℤ) (s : Sign) (word : ℕ) → IsPack v s word → InInt64 v → bignum_to_int64 s word ≡ some v
bignum_to_int64_in_range v s word packed fits =
    in_range v (bignum_to_int64 s word) (bignum_to_int64-ToInt64 v s word packed) fits
  where
    in_range : (v : ℤ) (o : Option ℤ) → ToInt64 v o → InInt64 v → o ≡ some v
    in_range v none h fits = absurd (h fits)
    in_range v (some n) h fits = ap some h.0
