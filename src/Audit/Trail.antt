-- ===== src/Audit/Trail.antt =====
-- When the trail gets an entry.
use backend_boilerplate.Base.{
  Exception, Bool, Exec, Result, String, arith, false, includes, none, ok, some, throw, true, ◌≡◌,
  ◌⊎◌,
}
use backend_boilerplate.Json.{Json}
use backend_boilerplate.Audit.{Action, Request, Entry, success, failure, audited_methods, intercept}

module _ {S : Type 0} (create_log : S → Entry → Result S) where
  -- The client sees what the handler answers or throws, whether or not an entry is written.
  pub intercept-answer :
      (skip_audit : Bool) (r : Request) (handler : Exec S Json) (s : S)
      → (intercept create_log skip_audit r handler s).0 ≡ (handler s).0
  unfolding intercept
  intercept-answer skip_audit r handler s = ground arith

  -- What an entry says of a request and its outcome.
  abbrev pub Describes : Request → String → Result Json → Entry → Type 0
  Describes r user_id outcome entry =
      (entry.user_id ≡ user_id)
      × ((entry.metadata).method ≡ r.method)
      × ((entry.metadata).url ≡ r.url)
      × ((entry.metadata).user_agent ≡ r.user_agent)
      × ((entry.metadata).ip ≡ r.ip)
      × (r.method ≡ "POST" → entry.action ≡ Action.create)
      × (r.method ≡ "PUT" → entry.action ≡ Action.update)
      × (r.method ≡ "PATCH" → entry.action ≡ Action.update)
      × (r.method ≡ "DELETE" → entry.action ≡ Action.delete)
      × ((v : Json) → outcome ≡ ok v → (entry.status ≡ success) × ((entry.metadata).error ≡ none))
      × ((x : Exception)
          → outcome ≡ throw x
          → (entry.status ≡ failure) × ((entry.metadata).error ≡ some x))

  -- The state after an attempt to write an entry: what the table made of it, or the state before.
  abbrev pub Attempted : Entry → S → S → Type 0
  Attempted entry s t =
      ((v : S) → create_log s entry ≡ ok v → t ≡ v)
      × ((x : Exception) → create_log s entry ≡ throw x → t ≡ s)

  abbrev pub Recorded : Bool → Request → Exec S Json → S → Type 0
  Recorded skip_audit r handler s =
      ((u : String) × (entry : Entry) × ((skip_audit ≡ false)
          × (includes audited_methods r.method ≡ true)
          × (r.user ≡ some u)
          × Describes r u (handler s).0 entry
          × Attempted entry (handler s).1 (intercept create_log skip_audit r handler s).1))
      ⊎ (((skip_audit ≡ true) ⊎ ((includes audited_methods r.method ≡ false) ⊎ (r.user ≡ none)))
          × ((intercept create_log skip_audit r handler s).1 ≡ (handler s).1))
