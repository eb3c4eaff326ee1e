-- ===== src/Database/AggregatePinning.antt =====
-- What SQLite holds stays referred to by the struct: the definition of aggregates
-- (ext/sqlite3/aggregator.c, rb_sqlite3_define_aggregator2).
use sqlite3_ruby.Base.{
  suc, ◌≡◌, Bool, ◌||◌, any, ltb_ℤ, ◌⊎◌, inl, inr, some, [], ◌∷◌, ◌==◌, In-append_left,
  In-append_right, ==_refl, Bool-cases, ℤ, pos, negsuc,
}
use sqlite3_ruby.Values.{Ptr, Bytes, Value, Exception, Answer-cases}
use sqlite3_ruby.Env.{Sqlite, Ruby, Log, create_aggregate, ruby_call}
use sqlite3_ruby.Machine.{World, ok, raise, final, update}
use sqlite3_ruby.Errors.Classes.{IsResultCode}
use sqlite3_ruby.Errors.Codes.{raise_of_ok, raise_of_error}
use sqlite3_ruby.Aggregator.Define.{arity_method, declared_arity, rb_sqlite3_define_aggregator2}
use sqlite3_ruby.Database.Held.{functions_held, aggregates_held, collation_held, Pinned}

module _ ⦃lib : Sqlite⦄ ⦃rb : Ruby⦄ (same : Bytes → Bytes → Bool)
    (codes : (log : Log) → IsResultCode (lib.status log)) (self db : Ptr) (w : World)
    (p : Pinned lib same self db w) where
  -- The handler's answer leaves a run that only called Ruby.
  declared_arity_lem :
      (aggregator : Value)
      → (log : Log) × Pinned lib same self db (record w { log = log })
        × (((n : ℤ) × (declared_arity aggregator w ≡ ok n (record w { log = log })))
            ⊎ ((e : Exception) × (declared_arity aggregator w ≡ raise e (record w { log = log }))))
  unfolding declared_arity functions_held aggregates_held collation_held
  declared_arity_lem aggregator = elim (Bool-cases (rb.respond_to aggregator arity_method)) [
    | inr silent ↦ (w.log, p, inl (negsuc 0, rw silent))
    | inl declares ↦
        let log = ruby_call aggregator arity_method [] ∷ w.log in
        (
          log,
          record {
            connected = p.connected;
            functions = p.functions;
            aggregators = p.aggregators;
            collations = p.collations;
          },
          elim (Answer-cases (rb.funcall log)) [
            | inr (e, raised_it) ↦ inr (e, rw (declares, raised_it))
            | inl (v, answered_it) ↦ elim (Answer-cases (rb.num2int v)) [
              | inr (e, raised_it) ↦ inr (e, rw (declares, answered_it, raised_it))
              | inl (n, number) ↦ inl (n, rw (declares, answered_it, number))
            ]
          ],
        )
  ]

  pub define_aggregator2-Pinned :
      (aggregator : Value) (name : Bytes)
      → Pinned lib same self db (final (rb_sqlite3_define_aggregator2 self aggregator name w))
  unfolding rb_sqlite3_define_aggregator2 functions_held aggregates_held collation_held
  define_aggregator2-Pinned aggregator name =
      let (log, q, run) = declared_arity_lem aggregator in
      elim run [
        | inr (e, raised_it) ↦ rw (p.connected, raised_it) q
        | inl (n, number) ↦ elim (Bool-cases (ltb_ℤ n (negsuc 0) || ltb_ℤ (pos 127) n)) [
          | inl out ↦ rw (p.connected, number, out) q
          | inr fits ↦ elim (Bool-cases (any (λ c. c == 0) name)) [
            | inl nul ↦
                rw (p.connected, number, fits, nul)
                  (record {
                    connected = q.connected;
                    functions = q.functions;
                    aggregators = q.aggregators;
                    collations = q.collations;
                  })
            | inr good ↦
                let call = create_aggregate db name n w.fresh ∷ log in
                let g = record w {
                  wrappers =
                      update w.wrappers w.fresh
                        (record { handler_klass = aggregator; instances = [] });
                  fresh = suc w.fresh;
                  log = call;
                } in
                elim (Bool-cases (lib.status call == 0)) [
                  | inl done ↦
                      rw
                        (
                          p.connected,
                          number,
                          fits,
                          good,
                          raise_of_ok (some db) (lib.status call) g done,
                        )
                        (record {
                          connected = rw (==_refl self);
                          functions = λ v h. rw (==_refl self) (q.functions v h);
                          aggregators = λ v.
                              rw (==_refl self, ==_refl db, done)
                                (λ h. elim h [
                                  | inl e ↦
                                      In-append_right v (w.databases self).aggregators
                                        (w.fresh ∷ []) (inl e)
                                  | inr old ↦
                                      In-append_left v (w.databases self).aggregators (w.fresh ∷ [])
                                        (q.aggregators v old)
                                ]);
                          collations = λ key v h. rw (==_refl self) (q.collations key v h);
                        })
                  | inr failed ↦
                      let (e, raises) =
                        raise_of_error (some db) (lib.status call) g (codes call) failed in
                      rw (p.connected, number, fits, good, raises)
                        (record {
                          connected = q.connected;
                          functions = q.functions;
                          aggregators = λ v. rw (==_refl db, failed) (q.aggregators v);
                          collations = q.collations;
                        })
                ]
          ]
        ]
      ]
