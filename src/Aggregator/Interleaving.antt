-- ===== src/Aggregator/Interleaving.antt =====
-- Proofs about several executions of aggregates at once (ext/sqlite3/aggregator.c): the callbacks of
-- all of them, in any order that keeps each context's own.
use sqlite3_ruby.Base.{
  ◌≡◌, ◌≢◌, refl, Bool, true, false, not, ◌&&◌, List, [], ◌∷◌, map, ◌==◌, any, All, arith,
}
use sqlite3_ruby.Values.{Ptr}
use sqlite3_ruby.Env.{SqlValue, Sqlite, Ruby, Log, Callback, aggregate_stepped, aggregate_finished}
use sqlite3_ruby.Machine.{World, slot_nil, slot_instance, ok}
use sqlite3_ruby.Roundtrip.{HasType}
use sqlite3_ruby.Callbacks.{run_callback, run_callbacks}
use sqlite3_ruby.Aggregator.Ends.{FinalizeIsSupported}
use sqlite3_ruby.Aggregator.Advancing.{Advanced, step-Advanced, final-Advanced}
use sqlite3_ruby.Aggregator.Tracking.{IsTracked}

-- A callback of the execution in the context `ctx`; each execution has its own context.
pub data Event : Type 0 where
  stepped : Ptr → List SqlValue → Event
  finished : Ptr → Event

module _ (aw_of : Ptr → Ptr) where
  abbrev pub event_callback : Event → Callback
  event_callback (stepped ctx argv) = aggregate_stepped (aw_of ctx) ctx argv
  event_callback (finished ctx) = aggregate_finished (aw_of ctx) ctx

-- No event of a context follows its xFinal. `over` are the contexts whose execution is over.
abbrev pub is_ordered : List Ptr → List Event → Bool
is_ordered over [] = true
is_ordered over (stepped ctx argv ∷ events) =
    not (any (λ c. c == ctx) over) && is_ordered over events
is_ordered over (finished ctx ∷ events) =
    not (any (λ c. c == ctx) over) && is_ordered (ctx ∷ over) events

-- The contexts whose execution is over after the events.
abbrev pub all_over : List Ptr → List Event → List Ptr
all_over over [] = over
all_over over (stepped ctx argv ∷ events) = all_over over events
all_over over (finished ctx ∷ events) = all_over (ctx ∷ over) events

-- The arguments have values of SQLite's types.
abbrev pub IsTyped : Event → Type 0
IsTyped (stepped ctx argv) = All HasType argv
IsTyped (finished ctx) = Unit {0}

module _ (aw_of : Ptr → Ptr) where
  -- The contexts that are over are those whose VALUE is nil.
  record IsOver (over : List Ptr) (w : World) : Type 0 where
    marked : (c : Ptr) → any (λ d. d == c) over ≡ true → w.slots c ≡ slot_nil
    known : (c : Ptr) → w.slots c ≡ slot_nil → any (λ d. d == c) over ≡ true

  module _ ⦃lib : Sqlite⦄ ⦃rb : Ruby⦄
      (memory : (log : Log) (ctx : Ptr) → lib.aggregate_memory log ctx ≡ true)
      (supported : FinalizeIsSupported) where
    step-IsOver :
        (ctx inst : Ptr) (over : List Ptr) (w g : World)
        → any (λ d. d == ctx) over ≡ false
        → Advanced aw_of ctx (slot_instance inst) w g
        → IsOver over w
        → IsOver over g
    step-IsOver ctx inst over w g new a o = record {
      marked = λ c h. ground (arith, a.others c, o.marked c);
      known = λ c h. ground (arith, a.others c, o.known c, a.slot);
    }

    final-IsOver :
        (ctx : Ptr) (over : List Ptr) (w g : World)
        → Advanced aw_of ctx slot_nil w g
        → IsOver over w
        → IsOver (ctx ∷ over) g
    final-IsOver ctx over w g a o = record {
      marked = λ c h. ground (arith, a.others c, o.marked c, a.slot);
      known = λ c h. ground (arith, a.others c, o.known c);
    }

    interleaved :
        (events : List Event) (over : List Ptr) (w : World)
        → All IsTyped events
        → is_ordered over events ≡ true
        → IsTracked aw_of w
        → IsOver over w
        → (g : World) × (run_callbacks (map (event_callback aw_of) events) w ≡ ok tt g)
          × IsTracked aw_of g
          × IsOver (all_over over events) g
    unfolding run_callbacks run_callback
    interleaved [] over w typed ordered t o = (w, refl, t, o)
    interleaved (stepped ctx argv ∷ events) over w typed ordered t o =
        let new : any (λ d. d == ctx) over ≡ false = ground arith in
        let (inst, v, run, a) =
          step-Advanced aw_of ctx (λ log. memory log ctx) w t (λ h. ground (arith, o.known ctx h))
            argv typed.0 in
        let (g, rest, tracked, ended) =
          interleaved events over v typed.1 (ground arith) a.tracked
            (step-IsOver ctx inst over w v new a o) in
        (g, rw (run, rest), tracked, ended)
    interleaved (finished ctx ∷ events) over w typed ordered t o =
        let (v, run, a) =
          final-Advanced aw_of ctx (λ log. memory log ctx) w t (λ h. ground (arith, o.known ctx h))
            supported in
        let (g, rest, tracked, ended) =
          interleaved events (ctx ∷ over) v typed.1 (ground arith) a.tracked
            (final-IsOver ctx over w v a o) in
        (g, rw (run, rest), tracked, ended)

    -- Several executions of aggregates whose callbacks SQLite mixes in any order, as long as none of a
    -- context comes after its xFinal: all the callbacks return to SQLite, none of the three fatal
    -- errors is raised, and afterwards the instances that the wrappers list are exactly those of the
    -- contexts that are not over, each of one context; a context whose xFinal came is marked as
    -- destroyed. Before, the same holds of the instances and no context is marked as destroyed; the
    -- values are of SQLite's types, the library gives contexts their memory, and a
    -- `finalize` that returns gives a value that SQLite has a type for; nothing is asked of what `new`
    -- and `step` answer.
    pub interleaved-IsTracked :
        (events : List Event) (w : World)
        → All IsTyped events
        → is_ordered [] events ≡ true
        → IsTracked aw_of w
        → ((c : Ptr) → w.slots c ≢ slot_nil)
        → (g : World) × (run_callbacks (map (event_callback aw_of) events) w ≡ ok tt g)
          × IsTracked aw_of g
          × ((c : Ptr) → any (λ d. d == c) (all_over [] events) ≡ true → g.slots c ≡ slot_nil)
    interleaved-IsTracked events w typed ordered t open_slots =
        let (g, run, tracked, ended) =
          interleaved events [] w typed ordered t
            (record { marked = λ c h. cc; known = λ c h. absurd (open_slots c h) }) in
        (g, run, tracked, ended.marked)
