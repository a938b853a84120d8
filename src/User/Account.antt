-- ===== src/User/Account.antt =====
-- Creating, changing and deleting an account.
use backend_boilerplate.Users.{updated_user, value_given}
use backend_boilerplate.Base.{
  ◌≢◌, ap, false, inl, Option-cases, inr, ◌==◌, Result-cases, throw, [], ◌∷◌, ◌++◌, true, truthy,
  if◌then◌else◌, some, String, Option, none, ok, ◌≡◌, arith,
}
use backend_boilerplate.Users.{UserCreateInput, UserUpdateInput, Role, User, or_old, or_else}
use backend_boilerplate.Events.{user_created, user_updated, user_deleted}
use backend_boilerplate.User.{
  find_one, UserUpdateInput, UserCreateInput, clear_phone, Role, CreateUserDto, UpdateUserDto,
  World, Services, conflict, not_found, changes, create, update, remove, to_response_dto,
  encrypted_phone,
}
use text.Mathlib.TextPositions.{eq_refl}

-- What of a phone number the table and the answer keep: an empty one counts as none.
abbrev pub given : Option String → Option String
given none = none
given (some phone) = if truthy phone then some phone else none

module _ {Us : Type 0} (S : Services Us) where
  abbrev pub Created : World Us → World Us → CreateUserDto → User → Type 0
  Created w w' dto r =
      (u : User) × (((S.users).by_email w.users dto.email ≡ none)
        × ((S.users).by_id w.users u.id ≡ none)
        × ((S.users).by_id w'.users u.id ≡ some u)
        × ((S.users).by_email w'.users dto.email ≡ some u)
        × (u.email ≡ dto.email)
        × ((S.argon2).hash dto.password ≡ ok u.password)
        × (encrypted_phone S dto.phone ≡ ok u.phone)
        × (u.role ≡ or_else dto.role Role.user)
        × (u.is_active ≡ true)
        × (r ≡ record u { phone = given dto.phone })
        × (w'.events ≡ w.events ++ user_created u.id u.email u.role ∷ []))

  -- What was encrypted is shown in clear again.
  pub clear_phone-encrypted_phone :
      (phone o : Option String)
      → encrypted_phone S phone ≡ ok o
      → clear_phone S o ≡ ok (given phone)
  clear_phone-encrypted_phone none o e = ground arith
  clear_phone-encrypted_phone (some p) o e =
      ground (arith, (S.crypto).decrypt-encrypt p, (S.crypto).encrypt_truthy p)

  abbrev input_of : CreateUserDto → String → Option String → UserCreateInput
  input_of dto hashed phone = record {
    email = dto.email;
    password = hashed;
    first_name = dto.first_name;
    last_name = dto.last_name;
    phone = phone;
    role = dto.role;
  }

  -- A creation that returns found the address unused, and has added one row under a new id, with
  -- the address, the password's hash, the phone encrypted and, unless given, the role of a user.
  -- It has emitted the event, and its answer is the row with the phone in clear.
  pub create-Created :
      (w w' : World Us) (dto : CreateUserDto) (r : User)
      → create S dto w ≡ (ok r, w')
      → Created w w' dto r
  unfolding create to_response_dto
  create-Created w w' dto r e = elim (Result-cases ((S.argon2).hash dto.password)) [
    | inr (x, bad) ↦ absurd (ground arith)
    | inl (hashed, hash_ok) ↦ elim (Result-cases (encrypted_phone S dto.phone)) [
      | inr (x, bad) ↦ absurd (ground arith)
      | inl (phone, phone_ok) ↦
          elim (Result-cases ((S.users).create w.users (input_of dto hashed phone) w.now)) [
            | inr (x, bad) ↦ absurd (ground arith)
            | inl ((u, us), created) ↦ (
              u,
              ground (
                arith,
                clear_phone-encrypted_phone dto.phone phone phone_ok,
                eq_refl u.id,
                eq_refl dto.email,
                (S.users).create_row w.users (input_of dto hashed phone) w.now,
                (S.users).create_unique w.users (input_of dto hashed phone) w.now,
                (S.users).create_by_id w.users (input_of dto hashed phone) w.now u.id,
                (S.users).create_by_email w.users (input_of dto hashed phone) w.now dto.email,
              ),
            )
          ]
    ]
  ]

  -- An address in use is refused with 409; nothing is written and nothing emitted.
  pub create_conflict :
      (w : World Us) (dto : CreateUserDto) (u : User)
      → (S.users).find_by_email w.users dto.email ≡ ok (some u)
      → create S dto w ≡ (throw conflict, w)
  unfolding create
  create_conflict w dto u used = ground arith

  -- The table and the answer after an update: what the DTO leaves out stays, and so does the phone if
  -- the DTO's is empty; another phone is stored encrypted and answered in clear.
  abbrev pub Updated : World Us → World Us → String → UpdateUserDto → User → Type 0
  Updated w w' id dto r =
      (u : User) × (v : User) × (((S.users).by_id w.users id ≡ some u)
        × ((S.users).by_id w'.users id ≡ some v)
        × (dto.role ≢ some none)
        × (dto.is_active ≢ some none)
        × (v.id ≡ u.id)
        × (v.email ≡ u.email)
        × (v.password ≡ u.password)
        × (v.role ≡ or_else (value_given dto.role) u.role)
        × (v.is_active ≡ or_else (value_given dto.is_active) u.is_active)
        × (v.first_name ≡ or_else dto.first_name u.first_name)
        × (v.last_name ≡ or_else dto.last_name u.last_name)
        × (v.created_at ≡ u.created_at)
        × (v.updated_at ≡ w.now)
        × (given (value_given dto.phone) ≡ none → v.phone ≡ u.phone)
        × ((p : String)
            → given (value_given dto.phone) ≡ some p
            → (c : String) × ((S.crypto).encrypt p ≡ ok c)
              × (v.phone ≡ some c)
              × (r.phone ≡ some p))
        × (r ≡ record v { phone = r.phone })
        × ((j : String)
            → (id == j) ≡ false
            → (S.users).by_id w'.users j ≡ (S.users).by_id w.users j)
        × (w'.events ≡ w.events ++ user_updated v.id v.email (changes dto) ∷ []))

  abbrev edit_of : UpdateUserDto → Option String → UserUpdateInput
  edit_of dto phone = record {
    first_name = dto.first_name;
    last_name = dto.last_name;
    phone = phone;
    role = dto.role;
    is_active = dto.is_active;
  }

  no_phone :
      (phone o : Option String) → encrypted_phone S phone ≡ ok o → given phone ≡ none → o ≡ none
  no_phone none o e h = ground arith
  no_phone (some p) o e h = ground arith

  a_phone :
      (phone o : Option String)
      → encrypted_phone S phone ≡ ok o
      → (p : String) → given phone ≡ some p
      → (c : String) × ((S.crypto).encrypt p ≡ ok c) × (o ≡ some c)
  a_phone none o e p h = absurd (ground arith)
  a_phone (some q) o e p h =
      let same : q ≡ p = ground arith in
      elim (Result-cases ((S.crypto).encrypt q)) [
        | inr (x, bad) ↦ absurd (ground arith)
        | inl (c, sealed) ↦ (c, ground arith, ground arith)
      ]

  -- A new row and its answer, by the phone that the DTO gives.
  phone_kept :
      (phone o : Option String) (v r : User) (old : Option String)
      → encrypted_phone S phone ≡ ok o
      → v.phone ≡ or_old o old
      → to_response_dto S v ≡ ok r
      → (p : String) → given phone ≡ some p
      → (c : String) × ((S.crypto).encrypt p ≡ ok c) × (v.phone ≡ some c) × (r.phone ≡ some p)
  unfolding to_response_dto
  phone_kept phone o v r old e shape shown p h =
      let (c, sealed, held) = a_phone phone o e p h in
      let clear = clear_phone-encrypted_phone phone o e in (c, sealed, ground arith, ground arith)

  answer_shape : (v r : User) → to_response_dto S v ≡ ok r → r ≡ record v { phone = r.phone }
  unfolding to_response_dto
  answer_shape v r e = ground arith

  pub update-Updated :
      (w w' : World Us) (id : String) (dto : UpdateUserDto) (r : User)
      → update S id dto w ≡ (ok r, w')
      → Updated w w' id dto r
  unfolding update
  update-Updated w w' id dto r e = elim (Result-cases (encrypted_phone S (value_given dto.phone))) [
    | inr (x, bad) ↦ absurd (ground arith)
    | inl (phone, phone_ok) ↦
        elim (Result-cases ((S.users).update w.users id (edit_of dto phone) w.now)) [
          | inr (x, bad) ↦ absurd (ground arith)
          | inl ((v, us), done) ↦ elim (Option-cases ((S.users).by_id w.users id)) [
            | inl absent ↦ absurd (ground (arith, (S.users).find_by_id_lem w.users id))
            | inr (u, there) ↦
                let row = (S.users).update_row w.users id (edit_of dto phone) w.now in
                let by_id = (S.users).update_by_id w.users id (edit_of dto phone) w.now in
                let nulls = (S.users).update_null w.users id (edit_of dto phone) w.now in
                let columns : v ≡ updated_user (edit_of dto phone) w.now u = ground (arith, row) in
                let shown : to_response_dto S v ≡ ok r = ground arith in
                (
                  u,
                  v,
                  (
                    there,
                    ground (arith, by_id id, eq_refl id),
                    (λ e. ground (arith, e, nulls)),
                    (λ e. ground (arith, e, nulls)),
                    ap (λ (x : User). x.id) columns,
                    ap (λ (x : User). x.email) columns,
                    ap (λ (x : User). x.password) columns,
                    ap (λ (x : User). x.role) columns,
                    ap (λ (x : User). x.is_active) columns,
                    ap (λ (x : User). x.first_name) columns,
                    ap (λ (x : User). x.last_name) columns,
                    ap (λ (x : User). x.created_at) columns,
                    ap (λ (x : User). x.updated_at) columns,
                    (λ unchanged. ground (
                      arith,
                      columns,
                      no_phone (value_given dto.phone) phone phone_ok unchanged,
                    )),
                    phone_kept (value_given dto.phone) phone v r u.phone phone_ok
                        (ap (λ (x : User). x.phone) columns) shown,
                    answer_shape v r shown,
                    (λ j other. ground (arith, by_id j, other)),
                    ground arith,
                  ),
                )
          ]
        ]
  ]

  -- A deletion that returns has removed the row of that id alone and emitted the event of the user
  -- that was there.
  pub remove_lem :
      (w w' : World Us) (id j : String)
      → remove S id w ≡ (ok tt, w')
      → (u : User) × (((S.users).by_id w.users id ≡ some u)
          × ((S.users).by_id w'.users j ≡ (if id == j then none else (S.users).by_id w.users j))
          × (w'.events ≡ w.events ++ user_deleted u.id u.email ∷ []))
  unfolding remove
  remove_lem w w' id j e = elim (Option-cases ((S.users).by_id w.users id)) [
    | inl absent ↦ absurd (ground (arith, (S.users).find_by_id_lem w.users id))
    | inr (u, there) ↦ (
      u,
      ground (arith, (S.users).find_by_id_lem w.users id, (S.users).delete_by_id w.users id j),
    )
  ]

  -- An id that the table's lookup does not find is answered by 404 wherever it is looked up, changed or deleted,
  -- and nothing is written and nothing emitted.
  pub missing_user :
      (w : World Us) (id : String) (dto : UpdateUserDto)
      → (S.users).find_by_id w.users id ≡ ok none
      → (find_one S id w ≡ (throw not_found, w))
        × (update S id dto w ≡ (throw not_found, w))
        × (remove S id w ≡ (throw not_found, w))
  unfolding find_one update remove
  missing_user w id dto absent = ground arith
