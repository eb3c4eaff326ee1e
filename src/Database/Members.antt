-- ===== src/Database/Members.antt =====
-- What the parts of the mark list contain (ext/sqlite3/database.c, database_mark).
use sqlite3_ruby.Base.{
  ◌≡◌, refl, ap, Bool-cases, inl, inr, Option, none, some, List, [], ◌∷◌, map, In, In-append_left,
  In-append_right, In-map, All, arith,
}
use sqlite3_ruby.Values.{Ptr, Bytes, Value, hash_get, bytes_eq}
use sqlite3_ruby.Database.Mark.{
  Marked, value, instance_of, rb_sqlite3_pin_array_and_contents, pin_hash_and_contents, pin_each,
  rb_sqlite3_aggregator_pin_instances,
}

pub In-pin_array :
    (v : Value) (ary : List Value) → In v ary → In (value v) (rb_sqlite3_pin_array_and_contents ary)
unfolding rb_sqlite3_pin_array_and_contents
In-pin_array v [] h = absurd h
In-pin_array v (u ∷ ary) (inl e) = inl (ap value e)
In-pin_array v (u ∷ ary) (inr old) = inr (In-pin_array v ary old)

some_value : (u v : Value) → some u ≡ some v → value u ≡ value v
some_value u v h = ground arith

pub In-pin_hash :
    (key : Bytes) (v : Value) (hash : List (Bytes × Value))
    → hash_get key hash ≡ some v
    → In (value v) (pin_hash_and_contents hash)
unfolding pin_hash_and_contents hash_get
In-pin_hash key v [] h = ground arith
In-pin_hash key v ((k, u) ∷ hash) h = elim (Bool-cases (bytes_eq k key)) [
  | inl found ↦ inl (some_value u v (rw found at h))
  | inr other ↦ inr (In-pin_hash key v hash (rw other at h))
]

pub All-of-In : {A : Type 0} (P : A → Type 0) (xs : List A) → ((x : A) → In x xs → P x) → All P xs
All-of-In P [] h = tt
All-of-In P (x ∷ xs) h = (h x (inl refl), All-of-In P xs (λ y i. h y (inr i)))

-- The object, if there is one, is marked.
abbrev pub IsMarked : List Marked → Option Value → Type 0
IsMarked marked none = Unit
IsMarked marked (some v) = In (value v) marked

pub IsMarked-of :
    (marked : List Marked) (o : Option Value)
    → ((v : Value) → o ≡ some v → In (value v) marked)
    → IsMarked marked o
IsMarked-of marked none h = tt
IsMarked-of marked (some v) h = h v refl

pub In-pin_each :
    (instances : Ptr → List Ptr) (aw i : Ptr) (aggregators : List Ptr)
    → In aw aggregators
    → In i (instances aw)
    → In (instance_of i) (pin_each instances aggregators)
unfolding pin_each rb_sqlite3_aggregator_pin_instances
In-pin_each instances aw i [] h live = absurd h
In-pin_each instances aw i (x ∷ rest) (inl e) live =
    In-append_left _ _ (pin_each instances rest) (In-map instance_of i (instances x) (rw (e) live))
In-pin_each instances aw i (x ∷ rest) (inr old) live =
    In-append_right _ (map instance_of (instances x)) _ (In-pin_each instances aw i rest old live)
