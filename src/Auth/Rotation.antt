-- ===== src/Auth/Rotation.antt =====
-- What a refresh promises of the table of tokens, from the steps that it took.
use text.Mathlib.TextPositions.{eq_refl}
use backend_boilerplate.Base.{
  true, ◌≤◌, ◌<◌, none, try_catch-throws, some, ◌==◌, eq_iff, if◌then◌else◌, ℕ, throw, ◌≢◌,
  Exception, ok, String, ◌≡◌, arith,
}
use backend_boilerplate.Users.{User}
use backend_boilerplate.Auth.Types.{AuthJwtConfig, RefreshToken, AuthResponseDto, World}
use backend_boilerplate.Auth.Expiry.{expires_at}
use backend_boilerplate.Auth.{
  payload_of, second, JwtPayload, save_refresh_token, generate_tokens, refresh_body, some, throw, ℕ,
  Exception, ok, String, Services, unauthorized, refresh,
}
use backend_boilerplate.Auth.Login.{Signed, row_of}
use backend_boilerplate.Auth.Refresh.{Valid, refresh_lem}

module _ {Us Tk : Type 0} (S : Services Us Tk) where
  abbrev pub Rotated : World Us Tk → World Us Tk → String → AuthResponseDto → Type 0
  Rotated w w' token r =
      (row : RefreshToken) × (u : User) × (c : AuthJwtConfig) × (t : ℕ) × (Valid S w token row u
        × Signed S w u c r
        × (expires_at (c.refresh).expires_in w.now ≡ ok t)
        × (w'.users ≡ w.users)
        × (w'.events ≡ w.events)
        × ((j : String)
            → (S.tokens).rows w'.tokens j ≡ (
                if r.refresh_token == j
                then some (row_of S u.id r.refresh_token t)
                else if token == j
                then none
                else (S.tokens).rows w.tokens j)))

  -- A refresh that returns was made with a stored token that has not expired, of an active user. It
  -- returns tokens signed for that user. The new token is stored as the user's with the configured
  -- expiration; the old one is gone, unless the new one is the same text; all other tokens are as
  -- they were, and no event is emitted.
  pub refresh-Rotated :
      (w w' : World Us Tk) (token : String) (r : AuthResponseDto)
      → refresh S token w ≡ (ok r, w')
      → Rotated w w' token r
  refresh-Rotated w w' token r e =
      let (row, u, c, middle, t, (valid, signed, x)) = refresh_lem S w w' token r e in
      (
        row,
        u,
        c,
        t,
        (
          valid,
          signed,
          x.0,
          x.3,
          x.4,
          λ j. ground (
            arith,
            x.1,
            x.2,
            (S.tokens).delete_rows w.tokens token j,
            (S.tokens).create_rows middle r.refresh_token (row_of S u.id r.refresh_token t) j,
          ),
        ),
      )

  -- A token is good for one refresh: unless the new token is the same text, no refresh with the old
  -- one returns in a state whose entry for it is as the first refresh left it.
  pub refresh_replay :
      (w w' v v' : World Us Tk) (token : String) (r r' : AuthResponseDto)
      → refresh S token w ≡ (ok r, w')
      → r.refresh_token ≢ token
      → (S.tokens).rows v.tokens token ≡ (S.tokens).rows w'.tokens token
      → ¬ (refresh S token v ≡ (ok r', v'))
  refresh_replay w w' v v' token r r' e new kept again =
      let (row, u, c, t, rotated) = refresh-Rotated w w' token r e in
      let (row', u', c', t', rotated') = refresh-Rotated v v' token r' again in
      let now_gone = rotated.5 token in
      let valid = rotated'.0 in
      ground (arith, now_gone, valid, eq_iff r.refresh_token token, eq_refl token)

  -- A token that expired is refused, though its user is active, and nothing is written.
  pub refresh_expired :
      (w : World Us Tk) (token : String) (row : RefreshToken)
      → (S.tokens).rows w.tokens token ≡ some row
      → row.expires_at < w.now
      → refresh S token w ≡ (throw (unauthorized "Invalid or expired refresh token"), w)
  unfolding refresh
  refresh_expired w token row there old = ground (arith, (S.tokens).find_unique_lem w.tokens token)

  -- Where the configured expiration is refused, a refresh with a good token of an active user, for
  -- which every step up to the deletion succeeds, ends in the 401 of an invalid token, and the old
  -- token is gone: the session is lost.
  pub refresh_loses :
      (w : World Us Tk) (token : String) (row : RefreshToken) (u : User) (c : AuthJwtConfig)
      (x : Exception) (middle : Tk) (p : JwtPayload) (access new : String)
      → S.config ≡ some c
      → expires_at (c.refresh).expires_in w.now ≡ throw x
      → (S.jwt).verify token (c.refresh).secret (second w.now) ≡ ok p
      → (S.tokens).find_unique w.tokens token ≡ ok (some row)
      → (S.users).find_by_id w.users row.user_id ≡ ok (some u)
      → w.now ≤ row.expires_at
      → u.is_active ≡ true
      → (S.jwt).sign (payload_of u) (c.access).secret (c.access).expires_in (second w.now)
        ≡ ok access
      → (S.jwt).sign (payload_of u) (c.refresh).secret (c.refresh).expires_in (second w.now)
        ≡ ok new
      → (S.tokens).delete w.tokens token ≡ ok middle
      → (refresh S token w
          ≡ (throw (unauthorized "Invalid or expired refresh token"), record w { tokens = middle }))
        × ((S.tokens).rows middle token ≡ none)
  unfolding refresh generate_tokens save_refresh_token
  refresh_loses w token row u c x middle p access new a1 a2 a3 a4 a5 a6 a7 a8 a9 a10 =
      ground (arith, (S.tokens).delete_rows w.tokens token token, eq_refl token)

  -- Whatever goes wrong in a refresh, an account that is inactive included, the caller sees one and the
  -- same 401.
  pub refresh-throws :
      (w w' : World Us Tk) (token : String) (x : Exception)
      → refresh S token w ≡ (throw x, w')
      → x ≡ unauthorized "Invalid or expired refresh token"
  unfolding refresh
  refresh-throws w w' token x e =
      try_catch-throws (refresh_body S token) (unauthorized "Invalid or expired refresh token") w e
