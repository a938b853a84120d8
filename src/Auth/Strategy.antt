-- ===== src/Auth/Strategy.antt =====
-- src/domains/auth/infrastructure/strategies: jwt.strategy.ts and jwt-refresh.strategy.ts, whose
-- `validate` is the same. Passport extracts the token and verifies it.
use backend_boilerplate.Base.{
  Exec, Option, Result, arith, none, ok, pure, raise, refl, some, throw, true, ◌>>=◌, ◌≡◌,
}
use backend_boilerplate.Users.{User}
use backend_boilerplate.Auth.Types.{JwtPayload, World}
use backend_boilerplate.Auth.{Services, validate_user, unauthorized}

module _ {Us Tk : Type 0} (S : Services Us Tk) where
  abbrev present : Option User → Exec (World Us Tk) User
  present none = raise (unauthorized "Unauthorized")
  present (some user) = pure user

  unfoldable pub validate : JwtPayload → Exec (World Us Tk) User
  validate payload = do user ← validate_user S payload.sub; present user

  -- The strategy's verdict on a request, as the guards take it: the payload is passport's, or the
  -- exception that it throws.
  unfoldable pub authenticate : Result JwtPayload → World Us Tk → Result User
  unfolding validate
  authenticate (ok payload) w = (validate payload w).0
  authenticate (throw e) w = throw e

  -- What a strategy lets in is the stored account of the token's subject, and it is active.
  pub authenticate-stored :
      (verified : Result JwtPayload) (w : World Us Tk) (u : User)
      → authenticate verified w ≡ ok u
      → (p : JwtPayload) × (verified ≡ ok p)
        × ((S.users).by_id w.users p.sub ≡ some u)
        × (u.is_active ≡ true)
  unfolding authenticate validate_user
  authenticate-stored (throw x) w u e = absurd (ground arith)
  authenticate-stored (ok p) w u e = (
    p,
    refl,
    ground (arith, (S.users).find_by_id_lem w.users p.sub),
    ground (arith, (S.users).find_by_id_lem w.users p.sub),
  )
