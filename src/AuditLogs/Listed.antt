-- ===== src/AuditLogs/Listed.antt =====
-- Listing audit logs page by page.
use backend_boilerplate.Base.{List, arith, length, ok, suc, ℕ, ◌*◌, ◌≡◌}
use backend_boilerplate.Pagination.{PaginationMeta, page_meta, skip_of, take, drop}
use backend_boilerplate.Pagination.Complete.{find_many-page}
use backend_boilerplate.AuditLogs.{
  AuditLogWithUser, QueryAuditDto, AuditLogTable, default_to, where_of, find_all,
}

module _ {Lg : Type 0} (T : AuditLogTable Lg) where
  abbrev pub selected : Lg → QueryAuditDto → List AuditLogWithUser
  selected logs query =
      (T.listing).matching logs (where_of query) tt
        (skip_of (default_to 1 query.page) (default_to 50 query.limit)) (default_to 50 query.limit)

  pub find_all_lem :
      (logs logs' : Lg) (query : QueryAuditDto) (p : ℕ) (rows : List AuditLogWithUser)
      (meta : PaginationMeta)
      → default_to 1 query.page ≡ suc p
      → find_all T query logs ≡ (ok (rows, meta), logs')
      → (meta ≡ page_meta (suc p) (default_to 50 query.limit) (length (selected logs query)))
        × (rows
            ≡ take
                (default_to 50 query.limit)
                (drop (p * default_to 50 query.limit) (selected logs query)))
  unfolding find_all
  find_all_lem logs logs' query p rows meta first e =
      let found : (T.listing).find_many logs (where_of query) tt
            (skip_of (default_to 1 query.page) (default_to 50 query.limit))
            (default_to 50 query.limit)
          ≡ ok rows =
        ground arith in
      (
        ground (
          arith,
          (T.listing).count_lem logs (where_of query) tt
              (skip_of (default_to 1 query.page) (default_to 50 query.limit))
              (default_to 50 query.limit),
        ),
        find_many-page T.listing logs (where_of query) tt (default_to 1 query.page) p
            (default_to 50 query.limit) rows first found,
      )
