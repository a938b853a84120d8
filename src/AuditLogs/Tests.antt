-- ===== src/AuditLogs/Tests.antt =====
-- Listing two audit logs.
use backend_boilerplate.Base.{
  Bool, Ensures, List, Option, Result, String, [], error, false, http, if◌then◌else◌, keep, length,
  none, ok, refl, some, throw, true, ℕ, ◌==◌, ◌∷◌, ◌≡◌,
}
use backend_boilerplate.Pagination.{page_meta, page_count, skip_of, take, drop, Window}
use backend_boilerplate.AuditLogs.{
  AuditLogWithUser, QueryAuditDto, AuditLogTable, find_all, find_one, find_by_user, where_of,
}

abbrev log : String → ℕ → AuditLogWithUser
log id t = record {
  id = id;
  user_id = some "u1";
  action = "CREATE";
  entity = "users";
  entity_id = none;
  status = "success";
  created_at = t;
  user = some (record { id = "u1"; email = "a@x.org"; first_name = none; last_name = none });
}

abbrev of_user : Option String → AuditLogWithUser → Bool
of_user none l = true
of_user (some id) l = elim l.user_id [ none ↦ false | some u ↦ u == id ]

abbrev refuse_negative : List AuditLogWithUser → Option ℕ → ℕ → Result (List AuditLogWithUser)
refuse_negative ls none n = throw (error "Invalid value for skip argument")
refuse_negative ls (some k) n = ok (take n (drop k ls))

abbrev any_window :
    (ls : List AuditLogWithUser) (k : Option ℕ) (n : ℕ)
    → Ensures (Window k n ls) (refuse_negative ls k n)
any_window ls none n = tt
any_window ls (some k) n = refl

abbrev with_log : String → List AuditLogWithUser → Option AuditLogWithUser
with_log id [] = none
with_log id (l ∷ ls) = if l.id == id then some l else with_log id ls

-- Filtered by the user alone.
abbrev table : AuditLogTable (List AuditLogWithUser)
table = record {
  listing = record {
    matching = λ ls w o k n. keep (of_user w.user_id) ls;
    count = λ ls w. ok (length (keep (of_user w.user_id) ls));
    find_many = λ ls w o k n. refuse_negative (keep (of_user w.user_id) ls) k n;
    count_lem = λ ls w o k n. refl;
    find_many_lem = λ ls w o k n. any_window (keep (of_user w.user_id) ls) k n;
    rank = λ o log. log.created_at;
    untied_order = λ ls w o k j n m h. refl;
  };
  find_unique = λ ls id. ok (with_log id ls);
}

abbrev logs : List AuditLogWithUser
logs = log "l2" 20 ∷ log "l1" 10 ∷ []

abbrev query : QueryAuditDto
query = record { page = none; limit = some 1; user_id = some "u1"; action = none; entity = none }

run : Unit {0}
unfolding find_all find_one find_by_user page_meta page_count skip_of where_of
run = tt

log_tests :
    (find_all table query logs ≡ (ok (log "l2" 20 ∷ [], page_meta 1 1 2), logs))
    × (find_one table "l1" logs ≡ (ok (log "l1" 10), logs))
    × (find_one table "l3" logs ≡ (throw (http 404 "Audit log not found"), logs))
    × (find_by_user table "u2" logs ≡ (ok [], logs))
unfolding run
log_tests = (refl, refl, refl, refl)
