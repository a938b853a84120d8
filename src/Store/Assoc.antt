-- ===== src/Store/Assoc.antt =====
-- Association lists as tables and as caches: values that the interfaces' laws hold of.
use backend_boilerplate.Base.{
  ◌≡◌, ◌≢◌, refl, inr, Bool, Option, none, some, List, [], ◌∷◌, String, ◌==◌, if◌then◌else◌, eq_iff,
  arith, Result, ok, throw, error, Ensures,
}
use backend_boilerplate.Store.{Table, Cache, survives, edited, upserted}

module _ {V : Type 0} where
  pub at : List (String × V) → String → Option V
  at [] k = none
  at ((j, v) ∷ m) k = if j == k then some v else at m k

  pub put : String → V → List (String × V) → List (String × V)
  put k v m = (k, v) ∷ m

  pub without : String → List (String × V) → List (String × V)
  without k [] = []
  without k ((j, v) ∷ m) = let rest = without k m in if j == k then rest else (j, v) ∷ rest

  -- Every row that a filter matches is dropped, and so are the rows that it hides.
  pub prune : (V → Bool) → List (String × V) → List (String × V)
  prune p [] = []
  prune p ((j, v) ∷ m) = if p v then without j (prune p m) else (j, v) ∷ prune p m

  pub at-without :
      (m : List (String × V)) (k j : String)
      → at (without k m) j ≡ (if k == j then none else at m j)
  unfolding at without
  at-without [] k j = ground arith
  at-without ((i, v) ∷ m) k j = ground (arith, at-without m k j, eq_iff i k, eq_iff k j, eq_iff i j)

  pub at-prune :
      (p : V → Bool) (m : List (String × V)) (j : String) → at (prune p m) j ≡ survives p (at m j)
  unfolding at prune
  at-prune p [] j = refl
  at-prune p ((i, v) ∷ m) j = ground (arith, at-prune p m j, at-without (prune p m) i j)

  pub insert_new : Option V → String → V → List (String × V) → Result (List (String × V))
  insert_new none k v m = ok (put k v m)
  insert_new (some w) k v m = throw (error "P2002")

  pub change : Option V → String → (V → V) → List (String × V) → Result (List (String × V))
  change none k f m = throw (error "P2025")
  change (some v) k f m = ok (put k (f v) m)

  pub put_either : Option V → String → (V → V) → V → List (String × V) → List (String × V)
  put_either none k f v m = put k v m
  put_either (some w) k f v m = put k (f w) m

  pub drop : Option V → String → List (String × V) → Result (List (String × V))
  drop none k m = throw (error "P2025")
  drop (some v) k m = ok (without k m)

  module _ (m : List (String × V)) (k : String) where
    pub created_unique : (v : V) → Ensures (λ _. at m k ≡ none) (insert_new (at m k) k v m)
    unfolding insert_new
    created_unique v = ground arith

    pub created_rows :
        (v : V) (j : String)
        → Ensures (λ t. at t j ≡ (if k == j then some v else at m j)) (insert_new (at m k) k v m)
    unfolding insert_new at put
    created_rows v j = ground arith

    pub changed_rows :
        (f : V → V) (j : String)
        → Ensures
            (λ t. at t j ≡ (if k == j then edited f (at m j) else at m j))
            (change (at m k) k f m)
    unfolding change at put
    changed_rows f j = ground (arith, eq_iff k j)

    pub upserted_rows :
        (f : V → V) (v : V) (j : String)
        → at (put_either (at m k) k f v m) j ≡ (if k == j then upserted f v (at m j) else at m j)
    unfolding put_either at put
    upserted_rows f v j = ground (arith, eq_iff k j)

    pub changed_found : (f : V → V) → Ensures (λ _. at m k ≢ none) (change (at m k) k f m)
    unfolding change
    changed_found f = ground arith

    pub dropped_found : Ensures (λ _. at m k ≢ none) (drop (at m k) k m)
    unfolding drop
    dropped_found = ground arith

    pub dropped_rows :
        (j : String) → Ensures (λ t. at t j ≡ (if k == j then none else at m j)) (drop (at m k) k m)
    unfolding drop
    dropped_rows j = ground (arith, at-without m k j)

  abbrev pub assoc_table : Table (List (String × V)) V
  assoc_table = record {
    rows = at;
    find_unique = λ m k. ok (at m k);
    create = λ m k v. insert_new (at m k) k v m;
    update = λ m k f. change (at m k) k f m;
    upsert = λ m k f v. ok (put_either (at m k) k f v m);
    delete = λ m k. drop (at m k) k m;
    delete_many = λ m p. ok (prune p m);
    find_unique_lem = λ m k. refl;
    create_unique = created_unique;
    create_rows = created_rows;
    update_rows = changed_rows;
    upsert_rows = upserted_rows;
    update_found = changed_found;
    delete_found = dropped_found;
    delete_rows = dropped_rows;
    delete_many_rows = λ m p j. at-prune p m j;
  }

  pub at-put :
      (m : List (String × V)) (k : String) (v : V) (j : String)
      → at (put k v m) j ≡ (if k == j then some v else at m j)
  unfolding at put
  at-put m k v j = refl

  abbrev pub assoc_cache : Cache (List (String × V)) V
  assoc_cache = record {
    held = at;
    get = λ m k. ok (at m k);
    set = λ m k v ttl. ok (put k v m);
    del = λ m k. ok (without k m);
    get_lem = λ m k. inr refl;
    set_held = λ m k v ttl j. at-put m k v j;
    del_held = λ m k j. at-without m k j;
  }

-- For a test: the names that it computes with.
unfoldable pub assoc_steps : Unit {0}
unfolding at put without prune insert_new change put_either drop
assoc_steps = tt
