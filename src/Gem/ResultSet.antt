-- ===== src/Gem/ResultSet.antt =====
-- lib/sqlite3/resultset.rb: the methods of ResultSet over those of its statement. HashResultSet has
-- next_hash in the place of next, so its each is each_hash.
use sqlite3_ruby.Base.{
  ℕ, zero, suc, Bool, true, false, Option, none, some, List, [], ◌∷◌, if◌then◌else◌,
}
use sqlite3_ruby.Values.{Ptr, Value, qnil, string, rtest, bytes_eq}
use sqlite3_ruby.Env.{Sqlite, Ruby}
use sqlite3_ruby.Machine.{M, out_of_fuel, pure, ◌>>=◌}
use sqlite3_ruby.Statement.Prepare.{done_p, closed_p, reset_bang, sqlite3_rb_close}
use sqlite3_ruby.Statement.Step.{step}
use sqlite3_ruby.Statement.Bind.{Pack}
use sqlite3_ruby.Statement.Each.{Row}
use sqlite3_ruby.Gem.Binding.{Variables, bind_params}
use sqlite3_ruby.Gem.Metadata

-- A row as a Hash, in the order of its keys.
abbrev pub HashRow : Type 0
HashRow = List (Value × Value)

-- Column names are UTF-8 strings, or nil.
abbrev same_name : Value → Value → Bool
same_name (string s) (string t) = bytes_eq s.bytes t.bytes
same_name qnil qnil = true
same_name _ _ = false

unfoldable pub store : Value → Value → HashRow → HashRow
store name v [] = (name, v) ∷ []
store name v ((n, u) ∷ h) = if same_name n name then (n, v) ∷ h else (n, u) ∷ store name v h

-- `names.zip(row).to_h`, after the pairs of `h`: where the row is shorter there is nil.
unfoldable pub zip_to_h : HashRow → List Value → Row → HashRow
zip_to_h h [] row = h
zip_to_h h (name ∷ names) [] = zip_to_h (store name qnil h) names []
zip_to_h h (name ∷ names) (v ∷ row) = zip_to_h (store name v h) names row

abbrev pub row_or_empty : Option Row → Row
row_or_empty none = []
row_or_empty (some row) = row

module _ ⦃lib : Sqlite⦄ ⦃rb : Ruby⦄ where
  unfoldable pub reset : Pack → Ptr → Variables → M (Unit {0})
  reset pack stmt vars = do self ← reset_bang stmt; bind_params pack stmt vars

  unfoldable pub is_eof : Ptr → M Value
  is_eof stmt = done_p stmt

  unfoldable pub close : Ptr → M Ptr
  close stmt = sqlite3_rb_close stmt

  unfoldable pub is_closed : Ptr → M Value
  is_closed stmt = closed_p stmt

  unfoldable pub types : Ptr → M (List Value)
  types stmt = Metadata.types stmt

  unfoldable pub columns : Ptr → M (List Value)
  columns stmt = Metadata.columns stmt

  -- The rest of next_hash after the step.
  unfoldable pub row_hash : Ptr → Option Row → M (Option HashRow)
  row_hash stmt row = do
    done ← done_p stmt
    if rtest done
        then pure none
        else (do names ← Metadata.columns stmt; pure (some (zip_to_h [] names (row_or_empty row))))

  unfoldable pub next_hash : Ptr → M (Option HashRow)
  unfolding row_hash
  next_hash stmt = do row ← step stmt; row_hash stmt row

  -- What the loop of each_hash does with an answer.
  abbrev pub hash_taken : {S : Type 0} → (S → HashRow → M S) → (S → M S) → S → Option HashRow → M S
  hash_taken block again s none = pure s
  hash_taken block again s (some h) = block s h >>= again

  -- `while (node = next_hash)`, at most `fuel` times.
  unfoldable pub each_hash : {S : Type 0} → ℕ → (S → HashRow → M S) → Ptr → S → M S
  each_hash zero block stmt s w = out_of_fuel w
  each_hash (suc fuel) block stmt s w =
      (next_hash stmt >>= hash_taken block (each_hash fuel block stmt) s) w
