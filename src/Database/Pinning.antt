-- ===== src/Database/Pinning.antt =====
-- What SQLite holds stays referred to by the struct: the definition of functions and collations
-- (ext/sqlite3/database.c).
use sqlite3_ruby.Base.{
  ◌≡◌, Bool, true, false, ◌&&◌, inl, inr, some, Option, [], ◌∷◌, ◌==◌, if◌then◌else◌,
  In-append_left, In-append_right, arith, ==_refl, Bool-cases,
}
use sqlite3_ruby.Values.{
  Ptr, Bytes, Value, Answer-cases, hash_get, hash_aset, hash_get-hash_aset, bytes_eq, bytes_eq_refl,
  eq_of_bytes_eq,
}
use sqlite3_ruby.Env.{Sqlite, Ruby, Log, create_function, create_collation}
use sqlite3_ruby.Machine.{World, final}
use sqlite3_ruby.Errors.Classes.{IsResultCode}
use sqlite3_ruby.Errors.Codes.{raise_of_ok, raise_of_error}
use sqlite3_ruby.Database.Conversion.{define_function_with_flags, collation}
use sqlite3_ruby.Database.Held.{functions_held, aggregates_held, collation_held, Pinned}

unsaved :
    (same : Bytes → Bytes → Bool) (name key : Bytes) (comparator : Value) (rest : Option Value)
    (v : Value)
    → (if same name key && false then some comparator else rest) ≡ some v
    → rest ≡ some v
unsaved same name key comparator rest v h = ground arith

other_name_lem :
    (same : Bytes → Bytes → Bool) (name x key : Bytes)
    → same x key ≡ true
    → same name key ≡ false
    → bytes_eq name x ≡ false
other_name_lem same name x key found older = ground (arith, eq_of_bytes_eq name x)

module _ ⦃lib : Sqlite⦄ ⦃rb : Ruby⦄ (same : Bytes → Bytes → Bool)
    (codes : (log : Log) → IsResultCode (lib.status log)) (self db : Ptr) (w : World)
    (p : Pinned lib same self db w) where
  pub define_function-Pinned :
      (name : Bytes) (flags block : Value)
      → Pinned lib same self db (final (define_function_with_flags self name flags block w))
  unfolding define_function_with_flags functions_held aggregates_held collation_held
  define_function-Pinned name flags block = elim (Answer-cases (rb.num2int flags)) [
    | inr (e, raised_it) ↦ rw (p.connected, raised_it) p
    | inl (rep, number) ↦
        let log = create_function db name (rb.proc_arity block) rep block ∷ w.log in
        let g = record w { log = log } in
        elim (Bool-cases (lib.status log == 0)) [
          | inl done ↦
              rw (p.connected, number, raise_of_ok (some db) (lib.status log) g done)
                (record {
                  connected = rw (==_refl self);
                  functions = λ v.
                      rw (==_refl self, ==_refl db, done)
                        (λ h. elim h [
                          | inl e ↦
                              In-append_right v (w.databases self).functions (block ∷ []) (inl e)
                          | inr old ↦
                              In-append_left v (w.databases self).functions (block ∷ [])
                                (p.functions v old)
                        ]);
                  aggregators = λ v h. rw (==_refl self) (p.aggregators v h);
                  collations = λ key v h. rw (==_refl self) (p.collations key v h);
                })
          | inr failed ↦
              let (e, raises) = raise_of_error (some db) (lib.status log) g (codes log) failed in
              rw (p.connected, number, raises)
                (record {
                  connected = p.connected;
                  functions = λ v. rw (==_refl db, failed) (p.functions v);
                  aggregators = p.aggregators;
                  collations = p.collations;
                })
        ]
  ]

  added_collation :
      (name : Bytes) (comparator : Value) (key : Bytes) (v : Value)
      → (if same name key && true then some comparator else collation_held lib same db key w.log)
        ≡ some v
      → (x : Bytes) × (same x key ≡ true)
        × (hash_get x (hash_aset name comparator (w.databases self).collations) ≡ some v)
  added_collation name comparator key v h = elim (Bool-cases (same name key)) [
    | inl newest ↦ (
      name,
      newest,
      rw (hash_get-hash_aset name name comparator (w.databases self).collations, bytes_eq_refl name)
          (rw newest at h),
    )
    | inr older ↦
        let (x, found, bound) = p.collations key v (rw older at h) in
        (
          x,
          found,
          rw
              (
                hash_get-hash_aset name x comparator (w.databases self).collations,
                other_name_lem same name x key found older,
              )
              bound,
        )
  ]

  pub collation-Pinned :
      (name : Bytes) (comparator : Value)
      → Pinned lib same self db (final (collation self name comparator w))
  unfolding collation functions_held aggregates_held collation_held
  collation-Pinned name comparator =
      let log = create_collation db name comparator ∷ w.log in
      let g = record w { log = log } in
      elim (Bool-cases (lib.status log == 0)) [
        | inl done ↦
            rw (p.connected, raise_of_ok (some db) (lib.status log) g done)
              (record {
                connected = rw (==_refl self);
                functions = λ v h. rw (==_refl self) (p.functions v h);
                aggregators = λ v h. rw (==_refl self) (p.aggregators v h);
                collations = λ key v.
                    rw (==_refl self, ==_refl db, done)
                      (λ h. added_collation name comparator key v h);
              })
        | inr failed ↦
            let (e, raises) = raise_of_error (some db) (lib.status log) g (codes log) failed in
            rw (p.connected, raises)
              (record {
                connected = p.connected;
                functions = p.functions;
                aggregators = p.aggregators;
                collations = λ key v.
                    rw (==_refl db, failed)
                      (λ h. p.collations key v (unsaved same name key comparator _ v h));
              })
      ]
