-- ===== src/Aggregator/Listing.antt =====
-- Lemmas on the list of instances of a wrapper (ext/sqlite3/aggregator.c).
use sqlite3_ruby.Base.{
  ◌≡◌, ◌≢◌, ◌⊎◌, inl, inr, refl, true, false, List, [], ◌∷◌, ◌++◌, ◌==◌, any, arith, Bool-cases,
}
use sqlite3_ruby.Values.{Ptr}
use sqlite3_ruby.Aggregator.Callbacks.{ary_delete}

pub any-append_cases :
    (i f : Ptr) (ary : List Ptr)
    → any (λ q. q == i) (ary ++ f ∷ []) ≡ true
    → (any (λ q. q == i) ary ≡ true) ⊎ (f ≡ i)
any-append_cases i f [] h = inr (ground arith)
any-append_cases i f (q ∷ ary) h = elim (Bool-cases (q == i)) [
  | inl e ↦ inl (rw e)
  | inr e ↦
      let rest = any-append_cases i f ary (rw e at h) in
      elim rest [ inl l ↦ inl (rw (e, l)) | inr r ↦ inr r ]
]

pub any-append_left :
    (i f : Ptr) (ary : List Ptr)
    → any (λ q. q == i) ary ≡ true
    → any (λ q. q == i) (ary ++ f ∷ []) ≡ true
any-append_left i f [] h = ground arith
any-append_left i f (q ∷ ary) h = ground (arith, any-append_left i f ary)

pub any-ary_delete :
    (i p : Ptr) (ary : List Ptr)
    → i ≢ p
    → any (λ q. q == i) (ary_delete p ary) ≡ any (λ q. q == i) ary
unfolding ary_delete
any-ary_delete i p [] h = refl
any-ary_delete i p (q ∷ ary) h = ground (arith, any-ary_delete i p ary h)

pub any-ary_delete_self : (p : Ptr) (ary : List Ptr) → any (λ q. q == p) (ary_delete p ary) ≡ false
unfolding ary_delete
any-ary_delete_self p [] = refl
any-ary_delete_self p (q ∷ ary) = ground (arith, any-ary_delete_self p ary)
