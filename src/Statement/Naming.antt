-- ===== src/Statement/Naming.antt =====
-- Proofs about the parameters' names and the counters (ext/sqlite3/statement.c).
use sqlite3_ruby.Base.{
  ℕ, zero, suc, ◌+◌, ◌≡◌, ◌≢◌, refl, none, some, Option, List, [], ◌∷◌, ◌++◌, arith, ◌==◌,
  if◌then◌else◌, ap, sym, ◌∙◌, Bool-cases, inl, inr,
}
use mathlib.Core.List.{append-nil, append_assoc}
use sqlite3_ruby.Values.{
  Ptr, Bytes, symbol, string, utf8_str_new, returned, bytes_eq, hash_get, hash_aset,
}
use sqlite3_ruby.Env.{Sqlite, Ruby, Log}
use sqlite3_ruby.Machine.{World, ok}
use sqlite3_ruby.Statement.Guards.{live_stmt}
use sqlite3_ruby.Statement.Columns.{push_name, named_loop, named_params}
use sqlite3_ruby.Statement.Bind.{bind_index}
use sqlite3_ruby.Statement.Stats.{stat_order, stat_of, stat_hash}

-- The name of a parameter for Ruby: without its first character, or none for a parameter that has no
-- name or is written ?NNN.
abbrev pub ruby_name : Option Bytes → List Bytes
ruby_name none = []
ruby_name (some []) = [] ∷ []
ruby_name (some (c ∷ name)) = if c == b'?' then [] else name ∷ []

module _ ⦃lib : Sqlite⦄ where
  -- The names of `count` parameters from index `i` on.
  unfoldable pub names_from : Log → Ptr → ℕ → ℕ → List Bytes
  names_from log st zero i = []
  names_from log st (suc count) i =
      ruby_name (lib.bind_parameter_name log st i) ++ names_from log st count (i + 1)

  push_name-append :
      (o : Option Bytes) (params : List Bytes) → push_name o params ≡ params ++ ruby_name o
  push_name-append none params = sym (append-nil params)
  push_name-append (some []) params = refl
  push_name-append (some (c ∷ name)) params = elim (Bool-cases (c == b'?')) [
    | inl e ↦ rw e (sym (append-nil params))
    | inr e ↦ rw e
  ]

  named_loop-append :
      (log : Log) (st : Ptr) (count i : ℕ) (params : List Bytes)
      → named_loop log st count i params ≡ params ++ names_from log st count i
  unfolding named_loop names_from
  named_loop-append log st zero i params = sym (append-nil params)
  named_loop-append log st (suc count) i params =
      named_loop-append log st count (i + 1) _
      ∙ ap (λ l. l ++ names_from log st count (i + 1))
          (push_name-append (lib.bind_parameter_name log st i) params)
      ∙ append_assoc params _ _

  -- named_params of a live statement lists, in the order of the parameters 1 to the count, the names
  -- without their prefix character, leaving out the parameters that have no name or a number.
  pub named_params-names_from :
      (self st : Ptr) (w : World)
      → live_stmt self w ≡ ok st w
      → named_params self w ≡ ok (names_from w.log st (lib.bind_parameter_count w.log st) 1) w
  unfolding named_params
  named_params-names_from self st w live = rw live (rw (named_loop-append w.log st _ 1 []))

  -- A parameter is found by the same index whether its name comes as a Symbol, as a String, or as a
  -- String with the colon, for every name that does not begin with a colon itself.
  pub bind_index_prefix :
      ⦃rb : Ruby⦄ (log : Log) (st : Ptr) (c : ℕ) (name : Bytes)
      → c ≢ b':'
      → let plain_key = string (utf8_str_new (c ∷ name)) in
        let colon_key = string (utf8_str_new (b':' ∷ c ∷ name)) in
        (bind_index log st (symbol (c ∷ name)) ≡ bind_index log st colon_key)
        × (bind_index log st plain_key ≡ bind_index log st colon_key)
        × (bind_index log st colon_key
            ≡ returned (lib.bind_parameter_index log st (b':' ∷ c ∷ name)))
  unfolding bind_index
  bind_index_prefix log st c name h = ground arith

module _ ⦃lib : Sqlite⦄ where
  -- The lines with a Symbol find what the Hash of the lines with a Hash has.
  pub stat_of-hash_get :
      (log : Log) (st : Ptr) (key : Bytes)
      → stat_of log st key stat_order ≡ hash_get key (stat_hash log st [] stat_order)
  unfolding hash_get hash_aset bytes_eq stat_hash stat_of
  stat_of-hash_get log st key = refl
