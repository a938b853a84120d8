-- ===== src/AuditLogs.antt =====
-- src/infra/audit: application/audit.service.ts over infrastructure/audit-log.repository.ts. Nothing
-- here writes, so the service reads a table that stands still.
pub mod Listed
mod Tests
use backend_boilerplate.Base.{
  Exec, List, Option, Result, String, http, if◌then◌else◌, map, none, not, pure, raise, reads, some,
  truthy?, writes, ℕ, ◌*◌, ◌>>=◌, ◌>>◌,
}
use backend_boilerplate.Pagination.{PaginationMeta, page_meta, skip_of, Listing}

-- The part of a user that a log shows.
pub record LogUser : Type 0 where
  pub id : String
  pub email : String
  pub first_name : Option String
  pub last_name : Option String

-- A row of `audit_logs`, less its metadata, with its user, who may have been deleted since.
pub record AuditLogWithUser : Type 0 where
  pub id : String
  pub user_id : Option String
  pub action : String
  pub entity : String
  pub entity_id : Option String
  pub status : String
  pub created_at : ℕ
  pub user : Option LogUser

pub record QueryAuditDto : Type 0 where
  pub page : Option ℕ
  pub limit : Option ℕ
  pub user_id : Option String
  pub action : Option String
  pub entity : Option String

-- `Prisma.AuditLogWhereInput`: each property that is there asks for equality.
pub record AuditLogWhere : Type 0 where
  pub user_id : Option String
  pub action : Option String
  pub entity : Option String

-- What the repository calls of Prisma. The order is always by the time of creation, the latest
-- first, so a listing takes none.
pub record AuditLogTable (Lg : Type 0) : Type 0 where
  pub listing : Listing Lg AuditLogWhere (Unit {0}) AuditLogWithUser
  pub find_unique : Lg → String → Result (Option AuditLogWithUser)

-- `if (value) where.key = value`
abbrev pub asked_for : Option String → Option String
asked_for value = if truthy? value then value else none

abbrev pub default_to : ℕ → Option ℕ → ℕ
default_to d none = d
default_to d (some n) = n

unfoldable pub where_of : QueryAuditDto → AuditLogWhere
where_of query = record {
  user_id = asked_for query.user_id;
  action = asked_for query.action;
  entity = asked_for query.entity;
}

module _ {Lg : Type 0} (T : AuditLogTable Lg) where
  -- audit-log.repository.ts
  abbrev pub count : AuditLogWhere → Exec Lg ℕ
  count condition = reads (λ logs. (T.listing).count logs condition)

  abbrev pub find_many : AuditLogWhere → Option ℕ → ℕ → Exec Lg (List AuditLogWithUser)
  find_many condition skip limit =
      reads (λ logs. (T.listing).find_many logs condition tt skip limit)

  abbrev pub find_by_id : String → Exec Lg (Option AuditLogWithUser)
  find_by_id id = reads (λ logs. T.find_unique logs id)

  -- `AuditLogRepository.findByUser`, which `AuditService.findByUser` passes on; the user of a row is
  -- not read here, so it is left out of the answer.
  pub find_by_user : String → Exec Lg (List AuditLogWithUser)
  find_by_user user_id = do
    logs ← find_many (record { user_id = some user_id; action = none; entity = none }) (some 0) 100
    pure (map (λ (log : AuditLogWithUser). record log { user = none }) logs)

  -- audit.service.ts
  unfoldable pub find_all : QueryAuditDto → Exec Lg (List AuditLogWithUser × PaginationMeta)
  unfolding where_of
  find_all query = do
    let page = default_to 1 query.page
    let limit = default_to 50 query.limit
    total ← count (where_of query)
    logs ← find_many (where_of query) (skip_of page limit) limit
    pure (logs, page_meta page limit total)

  found : Option AuditLogWithUser → Exec Lg AuditLogWithUser
  found none = raise (http 404 "Audit log not found")
  found (some log) = pure log

  pub find_one : String → Exec Lg AuditLogWithUser
  unfolding found
  find_one id = do log ← find_by_id id; found log
