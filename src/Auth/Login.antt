-- ===== src/Auth/Login.antt =====
-- What a login needs, and what it leaves behind.
use backend_boilerplate.Base.{
  ◌==◌, if◌then◌else◌, ◌⊎◌, Result-cases, inl, inr, Option-cases, ℕ, ◌≡◌, true, some, [], ◌∷◌, ◌++◌,
  String, arith, ok,
}
use backend_boilerplate.Users.{User}
use backend_boilerplate.Events.{user_login}
use backend_boilerplate.Auth.Types.{AuthJwtConfig, RefreshToken, LoginDto, AuthResponseDto, World}
use backend_boilerplate.Auth.Expiry.{expires_at}
use backend_boilerplate.Auth.{
  unauthorized, throw, false, none, Services, payload_of, second, generate_tokens,
  save_refresh_token, respond, login,
}
use text.Mathlib.TextPositions.{eq_refl}

module _ {Us Tk : Type 0} (S : Services Us Tk) where
  abbrev pub row_of : String → String → ℕ → RefreshToken
  row_of user_id token t = record { token = token; user_id = user_id; expires_at = t }

  -- A refresh token of the user is now in the table, with the configured expiration.
  abbrev pub Saved : World Us Tk → World Us Tk → String → String → AuthJwtConfig → ℕ → Type 0
  Saved w w' user_id token c t =
      (S.config ≡ some c)
      × (expires_at (c.refresh).expires_in w.now ≡ ok t)
      × ((S.tokens).create w.tokens token (row_of user_id token t) ≡ ok w'.tokens)
      × (w'.users ≡ w.users)
      × (w'.now ≡ w.now)

  -- The pair of tokens is signed for the user with the two secrets.
  abbrev pub Signed : World Us Tk → User → AuthJwtConfig → AuthResponseDto → Type 0
  Signed w u c r =
      ((S.jwt).sign (payload_of u) (c.access).secret (c.access).expires_in (second w.now)
        ≡ ok r.access_token)
      × ((S.jwt).sign (payload_of u) (c.refresh).secret (c.refresh).expires_in (second w.now)
          ≡ ok r.refresh_token)

  abbrev pub Checked : World Us Tk → LoginDto → User → Type 0
  Checked w dto u =
      ((S.users).by_email w.users dto.email ≡ some u)
      × (u.is_active ≡ true)
      × ((S.argon2).verify u.password dto.password ≡ ok true)

  pub login_lem :
      (w w' : World Us Tk) (dto : LoginDto) (r : AuthResponseDto)
      → login S dto w ≡ (ok r, w')
      → (u : User) × (c : AuthJwtConfig) × (t : ℕ) × (Checked w dto u
          × Signed w u c r
          × Saved w w' u.id r.refresh_token c t
          × (w'.events ≡ w.events ++ user_login u.id u.email ∷ [])
          × ((r.user).password ≡ u.password))
  unfolding login generate_tokens save_refresh_token respond
  login_lem w w' dto r e = elim (Option-cases ((S.users).by_email w.users dto.email)) [
    | inl absent ↦ absurd (ground (arith, (S.users).find_by_email_lem w.users dto.email))
    | inr (u, found) ↦ elim (Option-cases S.config) [
      | inl bare ↦ absurd (ground (arith, (S.users).find_by_email_lem w.users dto.email))
      | inr (c, known) ↦ elim (Result-cases (expires_at (c.refresh).expires_in w.now)) [
        | inl (t, expiry) ↦ (u, c, t, ground (arith, (S.users).find_by_email_lem w.users dto.email))
        | inr (x, bad) ↦ absurd (ground (arith, (S.users).find_by_email_lem w.users dto.email))
      ]
    ]
  ]

  abbrev pub Granted : World Us Tk → World Us Tk → LoginDto → AuthResponseDto → Type 0
  Granted w w' dto r =
      (u : User) × (c : AuthJwtConfig) × (t : ℕ) × (Checked w dto u
        × Signed w u c r
        × (w'.users ≡ w.users)
        × (expires_at (c.refresh).expires_in w.now ≡ ok t)
        × (w'.events ≡ w.events ++ user_login u.id u.email ∷ [])
        × ((S.tokens).rows w.tokens r.refresh_token ≡ none)
        × ((j : String)
            → (S.tokens).rows w'.tokens j ≡ (
                if r.refresh_token == j
                then some (row_of u.id r.refresh_token t)
                else (S.tokens).rows w.tokens j)))

  -- A login that returns was made with the password of an active user; it returns that user's
  -- signed tokens, has added the refresh token, which was new, as the user's and has changed no
  -- other token, and has emitted the login event and nothing else.
  pub login-Granted :
      (w w' : World Us Tk) (dto : LoginDto) (r : AuthResponseDto)
      → login S dto w ≡ (ok r, w')
      → Granted w w' dto r
  login-Granted w w' dto r e =
      let (u, c, t, (checked, signed, saved, events, _)) = login_lem w w' dto r e in
      (
        u,
        c,
        t,
        (
          checked,
          signed,
          saved.3,
          saved.1,
          events,
          (rw saved.2 at
              ((S.tokens).create_unique w.tokens r.refresh_token (row_of u.id r.refresh_token t))),
          (λ j.
              rw saved.2 at (
                (S.tokens).create_rows w.tokens r.refresh_token (row_of u.id r.refresh_token t) j)),
        ),
      )

  -- The answer of a login carries the stored password hash: the whole row is copied into it.
  pub login-password :
      (w w' : World Us Tk) (dto : LoginDto) (r : AuthResponseDto)
      → login S dto w ≡ (ok r, w')
      → (u : User) × ((S.users).by_email w.users dto.email ≡ some u)
        × ((r.user).password ≡ u.password)
  login-password w w' dto r e =
      let (u, c, t, (checked, _, _, _, hash)) = login_lem w w' dto r e in (u, checked.0, hash)

  -- A second login with the same data within the second of a successful one does not return, as long
  -- as users and tokens stay as they are: it signs the same refresh token, whose column is unique.
  pub login_same_second :
      (w w' v v' : World Us Tk) (dto : LoginDto) (r r' : AuthResponseDto)
      → login S dto w ≡ (ok r, w')
      → v.users ≡ w'.users
      → v.tokens ≡ w'.tokens
      → second v.now ≡ second w.now
      → ¬ (login S dto v ≡ (ok r', v'))
  login_same_second w w' v v' dto r r' e users tokens time e' =
      let (u, c, t, (checked, signed, saved, _, _)) = login_lem w w' dto r e in
      let (u', c', t', (checked', signed', saved', _, _)) = login_lem v v' dto r' e' in
      let stored =
        (S.tokens).create_rows w.tokens r.refresh_token (row_of u.id r.refresh_token t)
          r.refresh_token in
      let free =
        (S.tokens).create_unique v.tokens r'.refresh_token (row_of u'.id r'.refresh_token t') in
      ground (arith, stored, free, eq_refl r.refresh_token)

  -- An address that the lookup does not find and a wrong password for an active account are answered
  -- alike, and neither changes anything.
  pub login_rejected :
      (w : World Us Tk) (dto : LoginDto)
      → (S.users).find_by_email w.users dto.email ≡ ok none
        ⊎ ((u : User) × ((S.users).find_by_email w.users dto.email ≡ ok (some u))
            × (u.is_active ≡ true)
            × ((S.argon2).verify u.password dto.password ≡ ok false))
      → login S dto w ≡ (throw (unauthorized "Invalid credentials"), w)
  unfolding login
  login_rejected w dto (inl unknown) = ground arith
  login_rejected w dto (inr (u, found, active, wrong)) = ground arith
