-- ===== src/Auth/Success.antt =====
-- When a login and a refresh return.
use backend_boilerplate.Base.{Option, String, [], arith, ok, some, true, ℕ, ◌++◌, ◌∷◌, ◌≡◌, ◌≤◌}
use backend_boilerplate.Users.{User}
use backend_boilerplate.Events.{user_login}
use backend_boilerplate.Auth.Types.{
  AuthJwtConfig, RefreshToken, LoginDto, AuthResponseDto, World, JwtPayload,
}
use backend_boilerplate.Auth.Expiry.{expires_at}
use backend_boilerplate.Auth.{
  Services, login, refresh, generate_tokens, save_refresh_token, respond, clear_phone, payload_of,
  second,
}
use backend_boilerplate.Auth.Login.{row_of}

module _ {Us Tk : Type 0} (S : Services Us Tk) where
  -- What the services answer for a user's new tokens, and the answer made of it.
  pub record Issued (w : World Us Tk) (u : User) (stored : Tk) : Type 0 where
    pub config : AuthJwtConfig
    pub access : String
    pub refresh : String
    pub expires : ℕ
    pub after : Tk
    pub phone : Option String
    pub configured : S.config ≡ some config
    pub access_signed :
        (S.jwt).sign (payload_of u) (config.access).secret (config.access).expires_in (second w.now)
        ≡ ok access
    pub refresh_signed :
        (S.jwt).sign
          (payload_of u)
          (config.refresh).secret
          (config.refresh).expires_in
          (second w.now)
        ≡ ok refresh
    pub parsed : expires_at (config.refresh).expires_in w.now ≡ ok expires
    pub saved : (S.tokens).create stored refresh (row_of S u.id refresh expires) ≡ ok after
    pub shown : clear_phone S u.phone ≡ ok phone

  abbrev pub answer_of :
      {w : World Us Tk} {u : User} {stored : Tk} → Issued w u stored → AuthResponseDto
  answer_of {u = u} i = record {
    user = record u { phone = i.phone };
    access_token = i.access;
    refresh_token = i.refresh;
  }

  -- A login with the password of an active user returns the user's tokens, with the refresh token
  -- stored and the login event emitted, if every service it calls answers without exception and the
  -- expiration is accepted.
  pub login_succeeds :
      (w : World Us Tk) (dto : LoginDto) (u : User) (i : Issued w u w.tokens)
      → (S.users).find_by_email w.users dto.email ≡ ok (some u)
      → u.is_active ≡ true
      → (S.argon2).verify u.password dto.password ≡ ok true
      → login S dto w ≡ (
        ok (answer_of i),
        record w { tokens = i.after; events = w.events ++ user_login u.id u.email ∷ [] },
      )
  unfolding login generate_tokens save_refresh_token respond
  login_succeeds w dto u i found active verified =
      ground (arith, i.configured, i.access_signed, i.refresh_signed, i.parsed, i.saved, i.shown)

  -- A refresh with a verified token that is stored and has not expired, of an active user, returns new
  -- tokens and leaves the new one stored, if every service it calls answers without exception and the
  -- expiration is accepted.
  pub refresh_succeeds :
      (w : World Us Tk) (token : String) (row : RefreshToken) (u : User) (p : JwtPayload)
      (middle : Tk) (i : Issued w u middle)
      → (S.jwt).verify token (i.config.refresh).secret (second w.now) ≡ ok p
      → (S.tokens).find_unique w.tokens token ≡ ok (some row)
      → (S.users).find_by_id w.users row.user_id ≡ ok (some u)
      → w.now ≤ row.expires_at
      → u.is_active ≡ true
      → (S.tokens).delete w.tokens token ≡ ok middle
      → refresh S token w ≡ (ok (answer_of i), record w { tokens = i.after })
  unfolding refresh generate_tokens save_refresh_token respond
  refresh_succeeds w token row u p middle i verified found owner fresh active deleted =
      ground (arith, i.configured, i.access_signed, i.refresh_signed, i.parsed, i.saved, i.shown)
