-- ===== src/Aggregator/Tracking.antt =====
-- Proofs about several executions of aggregates at once (ext/sqlite3/aggregator.c): which instances
-- the wrappers list, and so keep from the garbage collector, while contexts come and go.
use sqlite3_ruby.Base.{
  suc, ◌<◌, ◌≡◌, ◌≢◌, inl, inr, Bool, true, [], ◌∷◌, ◌++◌, ◌==◌, any, arith, if◌then◌else◌,
  Bool-cases, ap,
}
use sqlite3_ruby.Values.{Ptr}
use sqlite3_ruby.Machine.{World, slot_nil, slot_instance, update}
use sqlite3_ruby.Aggregator.Instances.{any-append}
use sqlite3_ruby.Aggregator.Callbacks.{ary_delete}
use sqlite3_ruby.Aggregator.Listing.{
  any-append_cases, any-append_left, any-ary_delete, any-ary_delete_self,
}

-- Whether the wrapper `aw` lists the instance `i`.
abbrev pub lists : World → Ptr → Ptr → Bool
lists w aw i = any (λ q. q == i) (w.wrappers aw).instances

-- The instances that the wrappers list are those of the contexts under way, each of one context.
-- `aw_of` gives the wrapper that sqlite3_user_data gives in a context.
pub record IsTracked (aw_of : Ptr → Ptr) (w : World) : Type 0 where
  pub listed : (ctx i : Ptr) → w.slots ctx ≡ slot_instance i → lists w (aw_of ctx) i ≡ true
  pub live :
      (aw i : Ptr)
      → lists w aw i ≡ true
      → (ctx : Ptr) × (w.slots ctx ≡ slot_instance i) × (aw_of ctx ≡ aw)
  pub distinct : (c d i : Ptr) → w.slots c ≡ slot_instance i → w.slots d ≡ slot_instance i → c ≡ d
  pub bounded : (ctx i : Ptr) → w.slots ctx ≡ slot_instance i → i < w.fresh

-- A command that changes neither contexts nor wrappers.
pub record Quiet (w g : World) : Type 0 where
  pub slots : g.slots ≡ w.slots
  pub wrappers : g.wrappers ≡ w.wrappers
  pub fresh : g.fresh ≡ w.fresh

-- The state after the instance of a context was made.
pub record Made (aw ctx : Ptr) (w g : World) : Type 0 where
  pub slots : g.slots ≡ update w.slots ctx (slot_instance w.fresh)
  pub wrappers :
      g.wrappers
      ≡ update w.wrappers aw
          (record (w.wrappers aw) { instances = (w.wrappers aw).instances ++ w.fresh ∷ [] })
  pub fresh : g.fresh ≡ suc w.fresh

-- The state after the instance of a context was released.
pub record Removed (aw ctx inst : Ptr) (w g : World) : Type 0 where
  pub slots : g.slots ≡ update w.slots ctx slot_nil
  pub wrappers :
      g.wrappers
      ≡ update w.wrappers aw
          (record (w.wrappers aw) { instances = ary_delete inst (w.wrappers aw).instances })
  pub fresh : g.fresh ≡ w.fresh

module _ (aw_of : Ptr → Ptr) where
  pub Quiet-IsTracked : (w g : World) → Quiet w g → IsTracked aw_of w → IsTracked aw_of g
  Quiet-IsTracked w g q t = record {
    listed = rw (q.slots, q.wrappers) t.listed;
    live = rw (q.slots, q.wrappers) t.live;
    distinct = rw q.slots t.distinct;
    bounded = rw (q.slots, q.fresh) t.bounded;
  }

  module _ (ctx : Ptr) (w g : World) (t : IsTracked aw_of w) where
    module _ (absent : (i : Ptr) → w.slots ctx ≢ slot_instance i)
        (m : Made (aw_of ctx) ctx w g) where
      made_slot : (c : Ptr) → g.slots c ≡ (if c == ctx then slot_instance w.fresh else w.slots c)
      made_slot c = ap (λ f. f c) m.slots

      made_lists :
          (aw i : Ptr)
          → lists g aw i ≡ (
              if aw == aw_of ctx
              then any (λ q. q == i) ((w.wrappers (aw_of ctx)).instances ++ w.fresh ∷ [])
              else lists w aw i)
      made_lists aw i = rw (ap (λ f. f aw) m.wrappers) (ground arith)

      made_kept : (c i : Ptr) → w.slots c ≡ slot_instance i → g.slots c ≡ slot_instance i
      made_kept c i h = ground (arith, made_slot c, absent i)

      made_live :
          (aw i : Ptr)
          → lists g aw i ≡ true
          → (c : Ptr) × (g.slots c ≡ slot_instance i) × (aw_of c ≡ aw)
      made_live aw i h =
          let ary = (w.wrappers (aw_of ctx)).instances in
          elim (Bool-cases (aw == aw_of ctx)) [
            | inl same ↦ elim (any-append_cases i w.fresh ary (ground (arith, made_lists aw i))) [
              | inl old ↦
                  let (c, s, e) = t.live (aw_of ctx) i old in (c, made_kept c i s, ground arith)
              | inr new ↦ (ctx, ground (arith, made_slot ctx), ground arith)
            ]
            | inr other ↦
                let (c, s, e) = t.live aw i (ground (arith, made_lists aw i)) in
                (c, made_kept c i s, e)
          ]

      pub Made-IsTracked : IsTracked aw_of g
      Made-IsTracked =
          let ary = (w.wrappers (aw_of ctx)).instances in
          record {
            listed = λ c i h. ground (
              arith,
              made_slot c,
              made_lists (aw_of c) i,
              t.listed c i,
              any-append_left i w.fresh ary,
              any-append w.fresh ary,
            );
            live = made_live;
            distinct = λ c d i h k. ground (
              arith,
              made_slot c,
              made_slot d,
              t.distinct c d i,
              t.bounded c w.fresh,
              t.bounded d w.fresh,
            );
            bounded = λ c i h. ground (arith, made_slot c, t.bounded c i, m.fresh);
          }

    module _ (inst : Ptr) (s : w.slots ctx ≡ slot_instance inst)
        (m : Removed (aw_of ctx) ctx inst w g) where
      removed_slot : (c : Ptr) → g.slots c ≡ (if c == ctx then slot_nil else w.slots c)
      removed_slot c = ap (λ f. f c) m.slots

      removed_lists :
          (aw i : Ptr)
          → lists g aw i ≡ (
              if aw == aw_of ctx
              then any (λ q. q == i) (ary_delete inst (w.wrappers (aw_of ctx)).instances)
              else lists w aw i)
      removed_lists aw i = rw (ap (λ f. f aw) m.wrappers) (ground arith)

      removed_live :
          (aw i : Ptr)
          → lists g aw i ≡ true
          → (c : Ptr) × (g.slots c ≡ slot_instance i) × (aw_of c ≡ aw)
      removed_live aw i h =
          let ary = (w.wrappers (aw_of ctx)).instances in
          let (c, k, e) = t.live aw i (
            ground (
              arith,
              removed_lists aw i,
              any-ary_delete i inst ary,
              any-ary_delete_self inst ary,
            )) in
          (c, ground (arith, removed_slot c, removed_lists aw i, any-ary_delete_self inst ary), e)

      pub Removed-IsTracked : IsTracked aw_of g
      Removed-IsTracked =
          let ary = (w.wrappers (aw_of ctx)).instances in
          record {
            listed = λ c i h. ground (
              arith,
              removed_slot c,
              removed_lists (aw_of c) i,
              t.listed c i,
              t.distinct c ctx i,
              any-ary_delete i inst ary,
            );
            live = removed_live;
            distinct =
                λ c d i h k. ground (arith, removed_slot c, removed_slot d, t.distinct c d i);
            bounded = λ c i h. ground (arith, removed_slot c, t.bounded c i, m.fresh);
          }
