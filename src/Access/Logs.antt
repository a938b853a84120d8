-- ===== src/Access/Logs.antt =====
-- The handlers of src/infra/audit/presentation/audit.controller.ts behind the guards. What Prisma
-- throws for a number that is NaN, and what a page or a limit below zero leads to, are parameters:
-- Prisma takes a negative limit for a number of rows from the end.
use backend_boilerplate.Base.{
  [], ◌∷◌, refl, inl, inr, Result-cases, arith, Exception, Exec, List, Option, Result, String,
  length, none, ok, pure, raise, reads, some, suc, ℕ, ◌*◌, ◌>>=◌, ◌≡◌,
}
use backend_boilerplate.Users.{User, admin}
use backend_boilerplate.Guards.{HttpRequest, admitted, admitted-roles, Listed-admin}
use backend_boilerplate.Pagination.{PaginationMeta, page_meta, take, drop}
use backend_boilerplate.Streaming.Numbers.{ℤ, pos, negsuc, Number, parse_int}
use backend_boilerplate.AuditLogs.{
  AuditLogWithUser, QueryAuditDto, AuditLogTable, find_all, find_by_user, find_one,
}
use backend_boilerplate.AuditLogs.Listed.{selected, find_all_lem}
use backend_boilerplate.Access.{admin_route}
use backend_boilerplate.Access.Endpoints.{
  AuditEndpoint, get_logs, get_user_logs, get_log, audit_route,
}

pub record AuditQuery : Type 0 where
  pub page : Option String
  pub limit : Option String
  pub user_id : Option String
  pub action : Option String
  pub entity : Option String

pub data AuditRequest : Type 0 where
  list_logs : AuditQuery → AuditRequest
  user_logs : (user_id : String) → AuditRequest
  one_log : (id : String) → AuditRequest

pub data AuditReply : Type 0 where
  page_of_logs : List AuditLogWithUser → PaginationMeta → AuditReply
  logs : List AuditLogWithUser → AuditReply
  log : AuditLogWithUser → AuditReply

unfoldable pub endpoint_of : AuditRequest → AuditEndpoint
endpoint_of (list_logs query) = get_logs
endpoint_of (user_logs user_id) = get_user_logs
endpoint_of (one_log id) = get_log

-- A parameter's default value.
abbrev pub given_or : String → Option String → String
given_or d none = d
given_or d (some s) = s

abbrev pub numbered : AuditQuery → (page limit : ℕ) → QueryAuditDto
numbered query page limit = record {
  page = some page;
  limit = some limit;
  user_id = query.user_id;
  action = query.action;
  entity = query.entity;
}

module _ {Lg : Type 0} (T : AuditLogTable Lg) (not_a_number : Exception)
    (below_zero : AuditQuery → (page limit : ℤ) → Exec Lg AuditReply) where
  list : AuditQuery → Number → Number → Exec Lg AuditReply
  list query (some (pos page)) (some (pos limit)) = do
    found ← find_all T (numbered query page limit)
    pure (page_of_logs found.0 found.1)
  list query (some (pos page)) (some (negsuc n)) = below_zero query (pos page) (negsuc n)
  list query (some (negsuc m)) (some limit) = below_zero query (negsuc m) limit
  list query none limit = raise not_a_number
  list query (some page) none = raise not_a_number

  handle_audit : AuditRequest → Exec Lg AuditReply
  unfolding list parse_int
  handle_audit (list_logs query) =
      list query (parse_int (given_or "1" query.page)) (parse_int (given_or "50" query.limit))
  handle_audit (user_logs user_id) = do found ← find_by_user T user_id; pure (logs found)
  handle_audit (one_log id) = do found ← find_one T id; pure (log found)

  unfoldable pub serve_audit : HttpRequest → Result User → AuditRequest → Exec Lg AuditReply
  unfolding handle_audit
  serve_audit request strategy r = do
    admitted_user ← reads (λ _. admitted request (audit_route (endpoint_of r)) strategy)
    handle_audit r

  -- A page of the logs, with its numbers.
  abbrev pub Page : Lg → AuditQuery → ℕ → List AuditLogWithUser → PaginationMeta → ℕ → Type 0
  Page s query p rows meta limit =
      (rows ≡ take limit (drop (p * limit) (selected T s (numbered query (suc p) limit))))
      × (meta ≡ page_meta (suc p) limit (length (selected T s (numbered query (suc p) limit))))

  listed :
      (query : AuditQuery) (p limit : ℕ) (s s' : Lg) (rows : List AuditLogWithUser)
      (meta : PaginationMeta)
      → list query (some (pos (suc p))) (some (pos limit)) s ≡ (ok (page_of_logs rows meta), s')
      → Page s query p rows meta limit
  unfolding list
  listed query p limit s s' rows meta e =
      elim (Result-cases (find_all T (numbered query (suc p) limit) s).0) [
        | inr (x, bad) ↦ absurd (ground (arith, bad))
        | inl ((vs, m), fine) ↦
            let (shape, page) =
              find_all_lem T s (find_all T (numbered query (suc p) limit) s).1
                (numbered query (suc p) limit) p vs m refl (ground (arith, fine)) in
            (ground (arith, fine, page), ground (arith, fine, shape))
      ]

  -- Where the page reads as a number from 1 and the limit as one from 0, 1 and 50 standing in for those
  -- left out, a listing that is answered was asked for by an administrator, and its rows are that
  -- page of the logs which the filter selects, with their numbers.
  pub serve_audit-page :
      (request : HttpRequest) (strategy : Result User) (query : AuditQuery) (p limit : ℕ)
      (s s' : Lg) (rows : List AuditLogWithUser) (meta : PaginationMeta)
      → parse_int (given_or "1" query.page) ≡ some (pos (suc p))
      → parse_int (given_or "50" query.limit) ≡ some (pos limit)
      → serve_audit request strategy (list_logs query) s ≡ (ok (page_of_logs rows meta), s')
      → ((u : User) × ((strategy ≡ ok u) × (u.role ≡ admin))) × Page s query p rows meta limit
  unfolding serve_audit endpoint_of audit_route
  serve_audit-page request strategy query p limit s s' rows meta first most e =
      elim (Result-cases (admitted request admin_route strategy)) [
        | inr (x, refused) ↦ absurd (ground (arith, refused))
        | inl (o, passed) ↦
            let (u, x) = admitted-roles request admin_route strategy (admin ∷ []) o refl passed in
            (
              (u, (x.0, Listed-admin x.2)),
              listed query p limit s s' rows meta (ground (arith, passed, first, most)),
            )
      ]
