-- ===== src/Access/Endpoints.antt =====
-- Who may call what: the decorators of the controllers of authentication, audit logs, uploads and
-- streaming beside those of users and feature flags.
use backend_boilerplate.Base.{
  Option, Result, Result-cases, [], arith, false, inl, inr, none, ok, refl, some, ◌&&◌, ◌==◌, ◌↔◌,
  ◌∷◌, ◌≡◌,
}
use backend_boilerplate.Users.{User, admin}
use backend_boilerplate.Guards.{
  HttpRequest, Route, request_path, admitted, admitted-roles, Listed-admin,
}
use backend_boilerplate.FeatureFlag.Routes.{
  FlagRequest, flag_route, get_flags, get_flag, get_status, patch_enable, patch_disable,
  patch_toggle, delete_key, post_flag,
}
use backend_boilerplate.Access.{
  Endpoint, post_users, get_me, get_users, get_user, patch_user, delete_user, route_of,
  public_route, user_route, admin_route,
}

-- src/domains/auth/presentation/auth.controller.ts
pub data AuthEndpoint : Type 0 where
  post_login post_refresh post_logout : AuthEndpoint

unfoldable pub auth_route : AuthEndpoint → Route
auth_route post_login = public_route
auth_route post_refresh = public_route
auth_route post_logout = user_route

-- src/infra/audit/presentation/audit.controller.ts
pub data AuditEndpoint : Type 0 where
  get_logs get_user_logs get_log : AuditEndpoint

unfoldable pub audit_route : AuditEndpoint → Route
audit_route get_logs = admin_route
audit_route get_user_logs = admin_route
audit_route get_log = admin_route

-- src/infra/upload/presentation/upload.controller.ts
pub data UploadEndpoint : Type 0 where
  post_single post_multiple delete_upload get_upload : UploadEndpoint

unfoldable pub upload_route : UploadEndpoint → Route
upload_route post_single = user_route
upload_route post_multiple = user_route
upload_route delete_upload = admin_route
upload_route get_upload = user_route

-- src/infra/streaming/presentation/streaming.controller.ts
pub data StreamingEndpoint : Type 0 where
  get_file get_video get_events get_progress : StreamingEndpoint

unfoldable pub streaming_route : StreamingEndpoint → Route
streaming_route get_file = user_route
streaming_route get_video = user_route
streaming_route get_events = public_route
streaming_route get_progress = user_route

pub data Target : Type 0 where
  users : Endpoint → Target
  flags : FlagRequest → Target
  auth : AuthEndpoint → Target
  audit : AuditEndpoint → Target
  uploads : UploadEndpoint → Target
  streaming : StreamingEndpoint → Target

unfoldable pub target_route : Target → Route
unfolding route_of flag_route auth_route audit_route upload_route streaming_route
target_route (users e) = route_of e
target_route (flags r) = flag_route r
target_route (auth e) = auth_route e
target_route (audit e) = audit_route e
target_route (uploads e) = upload_route e
target_route (streaming e) = streaming_route e

pub data Level : Type 0 where
  everybody members administrators : Level

-- Whom an endpoint is for. What is not listed is for members.
abbrev pub level : Target → Level
level (users post_users) = everybody
level (auth post_login) = everybody
level (auth post_refresh) = everybody
level (streaming get_events) = everybody
level (users get_users) = administrators
level (users delete_user) = administrators
level (audit e) = administrators
level (uploads delete_upload) = administrators
level (flags (get_status key)) = members
level (flags r) = administrators
level _ = members

-- What the strategy must say of a caller.
abbrev pub Allowed : Level → Result User → Type 0
Allowed everybody strategy = Unit {0}
Allowed members strategy = (u : User) × (strategy ≡ ok u)
Allowed administrators strategy = (u : User) × ((strategy ≡ ok u) × (u.role ≡ admin))

module _ (request : HttpRequest)
    (other : (request.method == "GET" && request_path request == "/metrics") ≡ false)
    (strategy : Result User) where
  abbrev Enters : Route → Type 0
  Enters route = (o : Option User) × (admitted request route strategy ≡ ok o)

  for_everybody : Enters public_route ↔ Allowed everybody strategy
  unfolding admitted
  for_everybody = (λ _. tt, λ _. (none, ground arith))

  for_members : Enters user_route ↔ Allowed members strategy
  unfolding admitted
  for_members = (
    λ (o, e). elim (Result-cases strategy) [
      | inl (u, known) ↦ (u, known)
      | inr (x, unknown) ↦ absurd (ground arith)
    ],
    λ (u, known). (some u, ground arith),
  )

  for_administrators : Enters admin_route ↔ Allowed administrators strategy
  unfolding admitted
  for_administrators = (
    λ (o, e).
        (let (u, x) = admitted-roles request admin_route strategy (admin ∷ []) o refl e in
          (u, (x.0, Listed-admin x.2))),
    λ (u, (known, role)). (some u, ground arith),
  )

  -- Apart from GET /metrics, the guards let a request into an endpoint just if its caller belongs to
  -- those whom the endpoint is for: everybody; whom the strategy authenticates; or administrators.
  pub admitted_iff :
      (t : Target)
      → ((o : Option User) × (admitted request (target_route t) strategy ≡ ok o))
        ↔ Allowed (level t) strategy
  unfolding target_route
  admitted_iff (users post_users) = for_everybody
  admitted_iff (users get_me) = for_members
  admitted_iff (users get_users) = for_administrators
  admitted_iff (users get_user) = for_members
  admitted_iff (users patch_user) = for_members
  admitted_iff (users delete_user) = for_administrators
  admitted_iff (flags get_flags) = for_administrators
  admitted_iff (flags (get_flag key)) = for_administrators
  admitted_iff (flags (get_status key)) = for_members
  admitted_iff (flags (post_flag dto)) = for_administrators
  admitted_iff (flags (patch_enable key)) = for_administrators
  admitted_iff (flags (patch_disable key)) = for_administrators
  admitted_iff (flags (patch_toggle key)) = for_administrators
  admitted_iff (flags (delete_key key)) = for_administrators
  admitted_iff (auth post_login) = for_everybody
  admitted_iff (auth post_refresh) = for_everybody
  admitted_iff (auth post_logout) = for_members
  admitted_iff (audit get_logs) = for_administrators
  admitted_iff (audit get_user_logs) = for_administrators
  admitted_iff (audit get_log) = for_administrators
  admitted_iff (uploads post_single) = for_members
  admitted_iff (uploads post_multiple) = for_members
  admitted_iff (uploads delete_upload) = for_administrators
  admitted_iff (uploads get_upload) = for_members
  admitted_iff (streaming get_file) = for_members
  admitted_iff (streaming get_video) = for_members
  admitted_iff (streaming get_events) = for_everybody
  admitted_iff (streaming get_progress) = for_members
