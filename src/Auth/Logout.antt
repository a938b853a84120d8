-- ===== src/Auth/Logout.antt =====
-- Logging out, and the users that a strategy admits.
use backend_boilerplate.Base.{
  inl, inr, ◌⊎◌, if◌then◌else◌, some, none, ok, Option, String, ◌≡◌, arith,
}
use backend_boilerplate.Store.{survives}
use backend_boilerplate.Users.{User}
use backend_boilerplate.Auth.Types.{World, LoginDto, AuthResponseDto}
use backend_boilerplate.Auth.Login.{login-Granted, row_of}
use backend_boilerplate.Auth.Rotation.{refresh-Rotated}
use backend_boilerplate.Auth.{login, refresh}
use text.Mathlib.TextPositions.{eq_refl}
use backend_boilerplate.Auth.{ok, Option, String, Services, logged_out, logout, validate_user}

module _ {Us Tk : Type 0} (S : Services Us Tk) where
  -- A logout that returns has deleted the user's token that it names, or every token of the user if
  -- it names none (or an empty one), and nothing else; no user has changed.
  pub logout_rows :
      (w w' : World Us Tk) (user_id : String) (token : Option String) (j : String)
      → logout S user_id token w ≡ (ok tt, w')
      → ((S.tokens).rows w'.tokens j
          ≡ survives (logged_out user_id token) ((S.tokens).rows w.tokens j))
        × (w'.users ≡ w.users)
  unfolding logout
  logout_rows w w' user_id token j e =
      ground (arith, (S.tokens).delete_many_rows w.tokens (logged_out user_id token) j)

  -- A strategy admits the user of the token if there is one and it is active; nothing is written.
  pub validate_user_lem :
      (w w' : World Us Tk) (user_id : String) (o : Option User)
      → validate_user S user_id w ≡ (ok o, w')
      → (w' ≡ w)
        × (o ≡ (elim ((S.users).by_id w.users user_id) [
          | none ↦ none
          | some u ↦ if u.is_active then some u else none
        ]))
  unfolding validate_user
  validate_user_lem w w' user_id o e = ground (arith, (S.users).find_by_id_lem w.users user_id)

  -- A logout ends the session: once a login returned, and then a logout of its user that names no
  -- token or the login's, no refresh with the login's token returns, while the entry for the token
  -- is as the login and then the logout left it.
  pub refresh-logout :
      (w w' v v' x x' : World Us Tk) (dto : LoginDto) (r r' : AuthResponseDto)
      (token : Option String) (u : User)
      → login S dto w ≡ (ok r, w')
      → (S.users).by_email w.users dto.email ≡ some u
      → (S.tokens).rows v.tokens r.refresh_token ≡ (S.tokens).rows w'.tokens r.refresh_token
      → (token ≡ none) ⊎ (token ≡ some r.refresh_token)
      → logout S u.id token v ≡ (ok tt, v')
      → (S.tokens).rows x.tokens r.refresh_token ≡ (S.tokens).rows v'.tokens r.refresh_token
      → ¬ (refresh S r.refresh_token x ≡ (ok r', x'))
  refresh-logout w w' v v' x x' dto r r' token u logged_in own kept named out still again =
      let (u', c, t, granted) = login-Granted S w w' dto r logged_in in
      let (row, _, _, _, rotated) = refresh-Rotated S x x' r.refresh_token r' again in
      let gone = (logout_rows v v' u.id token r.refresh_token out).0 in
      let same : u'.id ≡ u.id = ground (arith, own) in
      let here : (S.tokens).rows v.tokens r.refresh_token ≡ some (row_of S u.id r.refresh_token t) =
        ground (arith, granted.6 r.refresh_token, eq_refl r.refresh_token, kept, same) in
      let out_of_table : (S.tokens).rows v'.tokens r.refresh_token ≡ none = elim named [
        | inl e ↦ ground (arith, gone, here, e, eq_refl u.id)
        | inr e ↦ ground (arith, gone, here, e, eq_refl u.id, eq_refl r.refresh_token)
      ] in
      let there : (S.tokens).rows x.tokens r.refresh_token ≡ some row = rotated.0.0 in
      absurd (ground (arith, there, still, out_of_table))
