-- ===== src/Auth/Refresh.antt =====
-- Rotation of refresh tokens.
use backend_boilerplate.Base.{
  ◌≤◌, ℕ, ◌≡◌, true, ok, inl, inr, Option-cases, Result-cases, arith, String,
}
use backend_boilerplate.Users.{User}
use backend_boilerplate.Auth.Types.{AuthJwtConfig, RefreshToken, AuthResponseDto, World}
use backend_boilerplate.Auth.Expiry.{expires_at}
use backend_boilerplate.Auth.{some, Services, generate_tokens, save_refresh_token, respond, refresh}
use backend_boilerplate.Auth.Login.{Signed, row_of}

module _ {Us Tk : Type 0} (S : Services Us Tk) where
  -- The token that may be exchanged.
  abbrev pub Valid : World Us Tk → String → RefreshToken → User → Type 0
  Valid w token row u =
      ((S.tokens).rows w.tokens token ≡ some row)
      × ((S.users).by_id w.users row.user_id ≡ some u)
      × (w.now ≤ row.expires_at)
      × (u.is_active ≡ true)

  abbrev Exchanged :
      World Us Tk → World Us Tk → String → AuthJwtConfig → User → String → Tk → ℕ → Type 0
  Exchanged w w' token c u new middle t =
      (expires_at (c.refresh).expires_in w.now ≡ ok t)
      × ((S.tokens).delete w.tokens token ≡ ok middle)
      × ((S.tokens).create middle new (row_of S u.id new t) ≡ ok w'.tokens)
      × (w'.users ≡ w.users)
      × (w'.events ≡ w.events)

  pub refresh_lem :
      (w w' : World Us Tk) (token : String) (r : AuthResponseDto)
      → refresh S token w ≡ (ok r, w')
      → (row : RefreshToken) × (u : User) × (c : AuthJwtConfig) × (middle : Tk) × (t : ℕ) × (Valid w
            token row u
          × Signed S w u c r
          × Exchanged w w' token c u r.refresh_token middle t)
  unfolding refresh generate_tokens save_refresh_token respond
  refresh_lem w w' token r e = elim (Option-cases ((S.tokens).rows w.tokens token)) [
    | inl absent ↦ absurd (ground (arith, (S.tokens).find_unique_lem w.tokens token))
    | inr (row, there) ↦ elim (Option-cases ((S.users).by_id w.users row.user_id)) [
      | inl absent ↦ absurd (
          ground (
            arith,
            (S.tokens).find_unique_lem w.tokens token,
            (S.users).find_by_id_lem w.users row.user_id,
          ))
      | inr (u, found) ↦ elim (Option-cases S.config) [
        | inl bare ↦ absurd (ground arith)
        | inr (c, known) ↦ elim (Result-cases (expires_at (c.refresh).expires_in w.now)) [
          | inl (t, expiry) ↦ elim (Result-cases ((S.tokens).delete w.tokens token)) [
            | inl (middle, gone) ↦ (
              row,
              u,
              c,
              middle,
              t,
              ground (
                arith,
                (S.tokens).find_unique_lem w.tokens token,
                (S.users).find_by_id_lem w.users row.user_id,
              ),
            )
            | inr (x, bad) ↦ absurd (ground (arith))
          ]
          | inr (x, bad) ↦ absurd (ground (arith))
        ]
      ]
    ]
  ]
