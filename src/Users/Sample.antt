-- ===== src/Users/Sample.antt =====
-- Concrete values of the interfaces: a list of users as the table, clear text as the hash and the
-- cipher.
use backend_boilerplate.Base.{
  inr, false, inl, true, Bool-cases, ◌≢◌, Bool, ◌||◌, ℕ, ◌≡◌, refl, Option, none, some, List, [],
  ◌∷◌, String, ◌==◌, if◌then◌else◌, eq_iff, arith, Result, ok, throw, error, Ensures,
}
use backend_boilerplate.Users.{
  User, UserCreateInput, UserUpdateInput, UserTable, new_user, updated_user, Argon2, PhoneCipher,
}

pub with_id : List User → String → Option User
with_id [] k = none
with_id (u ∷ us) k = if u.id == k then some u else with_id us k

pub with_email : List User → String → Option User
with_email [] k = none
with_email (u ∷ us) k = if u.email == k then some u else with_email us k

pub without_id : String → List User → List User
without_id k [] = []
without_id k (u ∷ us) = let rest = without_id k us in if u.id == k then rest else u ∷ rest

-- The only id that it ever gives; a second row under it is refused.
abbrev pub only_id : String
only_id = "u1"

insert_user :
    Option User → Option User → List User → UserCreateInput → ℕ → Result (User × List User)
insert_user none none us i now = ok (new_user i only_id now, new_user i only_id now ∷ us)
insert_user _ _ us i now = throw (error "P2002")

pub create_user : List User → UserCreateInput → ℕ → Result (User × List User)
unfolding insert_user
create_user us i now = insert_user (with_id us only_id) (with_email us i.email) us i now

change_user : Option User → List User → UserUpdateInput → ℕ → Result (User × List User)
change_user none us i now = throw (error "P2025")
change_user (some u) us i now = ok (updated_user i now u, updated_user i now u ∷ us)

is_null : {A : Type 0} → Option (Option A) → Bool
is_null (some none) = true
is_null _ = false

pub update_user : List User → String → UserUpdateInput → ℕ → Result (User × List User)
unfolding change_user is_null
update_user us k i now =
    if is_null i.role || is_null i.is_active
    then throw (error "Argument must not be null")
    else change_user (with_id us k) us i now

pub with_id-key : (us : List User) (k : String) (u : User) → with_id us k ≡ some u → u.id ≡ k
unfolding with_id
with_id-key [] k u e = ground arith
with_id-key (x ∷ us) k u e = ground (arith, eq_iff x.id k, with_id-key us k u)

pub with_email-key :
    (us : List User) (k : String) (u : User) → with_email us k ≡ some u → u.email ≡ k
unfolding with_email
with_email-key [] k u e = ground arith
with_email-key (x ∷ us) k u e = ground (arith, eq_iff x.email k, with_email-key us k u)

pub with_id-without_id :
    (us : List User) (k j : String)
    → with_id (without_id k us) j ≡ (if k == j then none else with_id us j)
unfolding with_id without_id
with_id-without_id [] k j = ground arith
with_id-without_id (x ∷ us) k j =
    ground (arith, eq_iff x.id k, eq_iff x.id j, eq_iff k j, with_id-without_id us k j)

module _ (us : List User) (i : UserCreateInput) (now : ℕ) where
  pub create_user_row :
      Ensures
        (λ r. (r.0 ≡ new_user i (r.0).id now) × (with_id us (r.0).id ≡ none))
        (create_user us i now)
  unfolding create_user
  create_user_row = ground arith

  pub create_user_unique : Ensures (λ _. with_email us i.email ≡ none) (create_user us i now)
  unfolding create_user
  create_user_unique = ground arith

  pub create_user_by_id :
      (j : String)
      → Ensures
          (λ r. with_id r.1 j ≡ (if (r.0).id == j then some r.0 else with_id us j))
          (create_user us i now)
  unfolding create_user with_id
  create_user_by_id j = ground arith

  pub create_user_by_email :
      (j : String)
      → Ensures
          (λ r. with_email r.1 j ≡ (if i.email == j then some r.0 else with_email us j))
          (create_user us i now)
  unfolding create_user with_email
  create_user_by_email j = ground arith

module _ (us : List User) (k : String) (i : UserUpdateInput) (now : ℕ) where
  pub update_user_row :
      Ensures
        (λ r. (u : User) × (with_id us k ≡ some u) × (r.0 ≡ updated_user i now u))
        (update_user us k i now)
  unfolding update_user
  update_user_row = ground arith

  pub update_user_null :
      Ensures (λ _. (i.role ≢ some none) × (i.is_active ≢ some none)) (update_user us k i now)
  unfolding update_user
  update_user_null = ground arith

  changed_by_id :
      (o : Option User) (j : String)
      → with_id us k ≡ o
      → Ensures
          (λ r. with_id r.1 j ≡ (if k == j then some r.0 else with_id us j))
          (change_user o us i now)
  unfolding change_user with_id
  changed_by_id none j e = tt
  changed_by_id (some u) j e = ground (arith, with_id-key us k u e)

  pub update_user_by_id :
      (j : String)
      → Ensures
          (λ r. with_id r.1 j ≡ (if k == j then some r.0 else with_id us j))
          (update_user us k i now)
  unfolding update_user
  update_user_by_id j = elim (Bool-cases (is_null i.role || is_null i.is_active)) [
    | inl refused ↦ rw refused tt
    | inr fine ↦ rw fine (changed_by_id (with_id us k) j refl)
  ]

abbrev pub sample_users : UserTable (List User)
sample_users = record {
  by_id = with_id;
  by_email = with_email;
  find_by_id = λ us k. ok (with_id us k);
  find_by_email = λ us k. ok (with_email us k);
  create = create_user;
  update = update_user;
  delete = λ us k. ok (without_id k us);
  find_by_id_lem = λ us k. refl;
  find_by_email_lem = λ us k. refl;
  by_id_key = with_id-key;
  by_email_key = with_email-key;
  create_row = create_user_row;
  create_unique = create_user_unique;
  create_by_id = create_user_by_id;
  create_by_email = create_user_by_email;
  update_null = update_user_null;
  update_row = update_user_row;
  update_by_id = update_user_by_id;
  delete_by_id = λ us k j. with_id-without_id us k j;
}

abbrev pub clear_argon2 : Argon2
clear_argon2 = record {
  hash = λ p. ok p;
  verify = λ h p. ok (h == p);
  hash_verify = λ p. (eq_iff p p).1 refl;
}

abbrev pub clear_cipher : PhoneCipher
clear_cipher = record {
  encrypt = λ p. ok p;
  decrypt = λ c. ok c;
  decrypt-encrypt = λ p. refl;
  encrypt_truthy = λ p h. h;
}

-- For a test: the names that it computes with.
unfoldable pub sample_steps : Unit {0}
unfolding with_id with_email without_id create_user update_user
sample_steps = tt
