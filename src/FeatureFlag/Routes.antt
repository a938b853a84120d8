-- ===== src/FeatureFlag/Routes.antt =====
-- src/domains/feature-flag/presentation/feature-flag.controller.ts: the routes behind the guards.
-- Prisma's `findMany` is a parameter.
use Prim.Native.String.{◌++◌ as str_append}
use backend_boilerplate.Base.{
  Bool, Exec, List, Option, Result, Result-cases, String, [], arith, false, inl, inr, none, ok,
  pure, reads, refl, some, ◌>>=◌, ◌>>◌, ◌∷◌, ◌≡◌, ◌≢◌,
}
use backend_boilerplate.Store.{Table, Cache}
use backend_boilerplate.Users.{User, admin}
use backend_boilerplate.Guards.{HttpRequest, Route, admitted, admitted-roles, Listed-admin}
use backend_boilerplate.FeatureFlag.Ports.{FeatureFlag, Flags, CreateFeatureFlagInput, find_by_key}
use backend_boilerplate.FeatureFlag.{is_enabled, enable, disable, toggle, create_flag, delete_flag}

pub data FlagRequest : Type 0 where
  get_flags : FlagRequest
  get_flag get_status patch_enable patch_disable patch_toggle delete_key :
      (key : String) → FlagRequest
  post_flag : CreateFeatureFlagInput → FlagRequest

pub data FlagReply : Type 0 where
  flags : List FeatureFlag → FlagReply
  flag : Option FeatureFlag → FlagReply
  status : String → Bool → FlagReply
  message : String → FlagReply
  created : FlagReply

abbrev admins : Route
admins = record { is_public = false; roles = some (admin ∷ []) }

unfoldable pub flag_route : FlagRequest → Route
flag_route get_flags = admins
flag_route (get_flag key) = admins
flag_route (get_status key) = record { is_public = false; roles = none }
flag_route (patch_enable key) = admins
flag_route (patch_disable key) = admins
flag_route (patch_toggle key) = admins
flag_route (delete_key key) = admins
flag_route (post_flag dto) = admins

abbrev notice : String → String → FlagReply
notice key what = message (str_append "Feature '" (str_append key (str_append "' " what)))

module _ {Db Ca : Type 0} (T : Table Db FeatureFlag) (C : Cache Ca Bool)
    (find_many : Db → Result (List FeatureFlag)) where
  unfoldable pub handle : FlagRequest → Exec (Flags Db Ca) FlagReply
  unfolding is_enabled enable disable toggle create_flag delete_flag
  handle get_flags = do all ← reads (λ w. find_many w.db); pure (flags all)
  handle (get_flag key) = do feature ← find_by_key T key; pure (flag feature)
  handle (get_status key) = do enabled ← is_enabled T C key; pure (status key enabled)
  handle (post_flag dto) = do create_flag T C dto; pure created
  handle (patch_enable key) = do enable T C key; pure (notice key "enabled")
  handle (patch_disable key) = do disable T C key; pure (notice key "disabled")
  handle (patch_toggle key) = do enabled ← toggle T C key; pure (status key enabled)
  handle (delete_key key) = do delete_flag T C key; pure (notice key "deleted")

  -- A request through the guards.
  unfoldable pub serve_flag : HttpRequest → Result User → FlagRequest → Exec (Flags Db Ca) FlagReply
  unfolding handle
  serve_flag request strategy r = do reads (λ _. admitted request (flag_route r) strategy); handle r

  status-db : (key : String) (w : Flags Db Ca) → ((handle (get_status key) w).1).db ≡ w.db
  unfolding handle is_enabled
  status-db key w = elim (Result-cases (is_enabled T C key w).0) [
    | inl (b, fine) ↦ ground arith
    | inr (x, bad) ↦ ground arith
  ]

  -- Only an administrator changes flags: a request after which the database is another one was
  -- authenticated as an administrator's, whatever it returned or threw.
  pub serve_flag-admin :
      (request : HttpRequest) (strategy : Result User) (r : FlagRequest) (w : Flags Db Ca)
      → ((serve_flag request strategy r w).1).db ≢ w.db
      → (u : User) × ((strategy ≡ ok u) × (u.role ≡ admin))
  unfolding serve_flag handle flag_route
  serve_flag-admin request strategy r w changed =
      elim (Result-cases (admitted request (flag_route r) strategy)) [
        | inr (x, refused) ↦ absurd (changed (rw refused refl))
        | inl (o, passed) ↦ of_route r (λ e. changed (rw passed e)) passed
      ]
    where
      through :
          (o : Option User)
          → admitted request admins strategy ≡ ok o
          → (u : User) × ((strategy ≡ ok u) × (u.role ≡ admin))
      through o passed =
          let (u, x) = admitted-roles request admins strategy (admin ∷ []) o refl passed in
          (u, (x.0, Listed-admin x.2))

      of_route :
          (r : FlagRequest) {o : Option User}
          → ((handle r w).1).db ≢ w.db
          → admitted request (flag_route r) strategy ≡ ok o
          → (u : User) × ((strategy ≡ ok u) × (u.role ≡ admin))
      of_route (get_status key) {o} changed passed = absurd (changed (status-db key w))
      of_route get_flags {o} changed passed = through o passed
      of_route (get_flag key) {o} changed passed = through o passed
      of_route (post_flag dto) {o} changed passed = through o passed
      of_route (patch_enable key) {o} changed passed = through o passed
      of_route (patch_disable key) {o} changed passed = through o passed
      of_route (patch_toggle key) {o} changed passed = through o passed
      of_route (delete_key key) {o} changed passed = through o passed
