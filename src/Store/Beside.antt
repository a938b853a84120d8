-- ===== src/Store/Beside.antt =====
-- A table in a state that holds something else too: the table's laws still hold.
use backend_boilerplate.Base.{Ensures, Result, if◌then◌else◌, none, ok, some, throw, ◌==◌, ◌≡◌, ◌≢◌}
use backend_boilerplate.Store.{Table, survives, edited, upserted}

module _ {S C : Type 0} where
  abbrev pub paired : C → Result S → Result (S × C)
  paired c (ok s) = ok (s, c)
  paired c (throw e) = throw e

  pub Ensures-paired :
      (c : C) (P : S × C → Type 0) (r : Result S)
      → Ensures (λ s. P (s, c)) r
      → Ensures P (paired c r)
  Ensures-paired c P (ok s) h = h
  Ensures-paired c P (throw e) h = tt

  abbrev pub beside : {V : Type 0} → Table S V → Table (S × C) V
  beside T = record {
    rows = λ s k. T.rows s.0 k;
    find_unique = λ s k. T.find_unique s.0 k;
    create = λ s k v. paired s.1 (T.create s.0 k v);
    update = λ s k f. paired s.1 (T.update s.0 k f);
    upsert = λ s k f v. paired s.1 (T.upsert s.0 k f v);
    delete = λ s k. paired s.1 (T.delete s.0 k);
    delete_many = λ s p. paired s.1 (T.delete_many s.0 p);
    find_unique_lem = λ s k. T.find_unique_lem s.0 k;
    create_unique = λ s k v.
        Ensures-paired s.1 (λ _. T.rows s.0 k ≡ none) (T.create s.0 k v) (T.create_unique s.0 k v);
    create_rows = λ s k v j.
        Ensures-paired s.1 (λ t. T.rows t.0 j ≡ (if k == j then some v else T.rows s.0 j))
          (T.create s.0 k v) (T.create_rows s.0 k v j);
    update_rows = λ s k f j.
        Ensures-paired s.1
          (λ t. T.rows t.0 j ≡ (if k == j then edited f (T.rows s.0 j) else T.rows s.0 j))
          (T.update s.0 k f) (T.update_rows s.0 k f j);
    upsert_rows = λ s k f v j.
        Ensures-paired s.1
          (λ t. T.rows t.0 j ≡ (if k == j then upserted f v (T.rows s.0 j) else T.rows s.0 j))
          (T.upsert s.0 k f v) (T.upsert_rows s.0 k f v j);
    delete_rows = λ s k j.
        Ensures-paired s.1 (λ t. T.rows t.0 j ≡ (if k == j then none else T.rows s.0 j))
          (T.delete s.0 k) (T.delete_rows s.0 k j);
    update_found = λ s k f.
        Ensures-paired s.1 (λ _. T.rows s.0 k ≢ none) (T.update s.0 k f) (T.update_found s.0 k f);
    delete_found = λ s k.
        Ensures-paired s.1 (λ _. T.rows s.0 k ≢ none) (T.delete s.0 k) (T.delete_found s.0 k);
    delete_many_rows = λ s p j.
        Ensures-paired s.1 (λ t. T.rows t.0 j ≡ survives p (T.rows s.0 j)) (T.delete_many s.0 p)
          (T.delete_many_rows s.0 p j);
  }
