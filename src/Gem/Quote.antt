-- ===== src/Gem/Quote.antt =====
-- lib/sqlite3/database.rb: quote, of a string whose encoding has the ASCII characters as single bytes.
use sqlite3_ruby.Base.{
  ℕ, ◌≡◌, Bool, ◌||◌, false, Bool-cases, inl, inr, Option, none, some, [], ◌∷◌, ◌++◌, ◌==◌,
  if◌then◌else◌, arith,
}
use sqlite3_ruby.Values.{Bytes}

-- `string.gsub("'", "''")`
unfoldable pub quote : Bytes → Bytes
quote [] = []
quote (c ∷ s) = let rest = quote s in if c == 39 then 39 ∷ 39 ∷ rest else c ∷ rest

-- The bytes in front of the string that was read.
abbrev pub put : Bytes → Option (Bytes × Bytes) → Option (Bytes × Bytes)
put c none = none
put c (some (t, rest)) = some (c ++ t, rest)

abbrev pub starts_with_quote : Bytes → Bool
starts_with_quote [] = false
starts_with_quote (c ∷ s) = c == 39

-- What SQLite documents of a string literal, for the reader of the text behind the quote that opens
-- it, which gives the string and the text behind the literal: two quotes stand for one quote, one that
-- no quote follows ends the literal, and any other character stands for itself
-- (https://www.sqlite.org/lang_expr.html). A NUL byte ends the text of sqlite3_prepare_v2, so nothing
-- is said of it.
pub record ReadsLiterals (read : Bytes → Option (Bytes × Bytes)) : Type 0 where
  pub doubled : (s : Bytes) → read (39 ∷ 39 ∷ s) ≡ put (39 ∷ []) (read s)
  pub closing : (rest : Bytes) → starts_with_quote rest ≡ false → read (39 ∷ rest) ≡ some ([], rest)
  pub plain :
      (c : ℕ) (s : Bytes)
      → (c == 39) ≡ false
      → (c == 0) ≡ false
      → read (c ∷ s) ≡ put (c ∷ []) (read s)

-- No byte of the string is NUL.
abbrev pub has_nul : Bytes → Bool
has_nul [] = false
has_nul (c ∷ s) = (c == 0) || has_nul s

-- A quoted string without a NUL byte, between quotes, in any text that does not go on with a
-- quote: a reader of string literals as SQLite documents it reads the string that was quoted, and
-- goes on with that text.
pub quote-literal :
    (read : Bytes → Option (Bytes × Bytes)) (s rest : Bytes)
    → ReadsLiterals read
    → has_nul s ≡ false
    → starts_with_quote rest ≡ false
    → read (quote s ++ 39 ∷ rest) ≡ some (s, rest)
unfolding quote
quote-literal read [] rest reads clean h = reads.closing rest h
quote-literal read (c ∷ s) rest reads clean h =
    let tail_clean : has_nul s ≡ false = ground arith in
    let again = quote-literal read s rest reads tail_clean h in
    elim (Bool-cases (c == 39)) [
      | inl same ↦
          let is : c ≡ 39 = ground arith in rw is (rw (reads.doubled (quote s ++ 39 ∷ rest), again))
      | inr other ↦ rw (other, reads.plain c (quote s ++ 39 ∷ rest) other (ground arith), again)
    ]
