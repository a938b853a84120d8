-- ===== src/Audit.antt =====
-- src/core/interceptors/audit.interceptor.ts. Texts of the URL are lists of code points. The
-- callbacks of `tap` are run where the stream emits, so the handler's own effects come first.
mod Urls
mod Redaction
pub mod Trail
mod Tests
use Prim.Native.Char.{code}
use Prim.Native.String
use backend_boilerplate.Base.{
  Bool, Exception, Exec, List, Option, Result, String, [], false, if◌then◌else◌, includes, keep,
  nat_eq, none, not, ok, some, throw, true, ℕ, ◌&&◌, ◌*◌, ◌==◌, ◌||◌, ◌∷◌,
}
use backend_boilerplate.Json.{
  Json, null, obj, str, bool, num, arr, Fields, end, field, truthy_json, value_of,
}

abbrev pub codes : String → List ℕ
codes String.[] = []
codes (String.◌∷◌ c s) = code c ∷ codes s

abbrev pub same : List ℕ → List ℕ → Bool
same [] [] = true
same (a ∷ as_) (b ∷ bs) = nat_eq a b && same as_ bs
same _ _ = false

pub data Action : Type 0 where
  create update delete unknown : Action

pub data Status : Type 0 where
  success failure : Status

pub record Request : Type 0 where
  pub method : String
  pub url : List ℕ
  -- the id of `request.user`
  pub user : Option String
  -- a JSON object, if there is a body
  pub body : Option Fields
  pub user_agent : Option String
  pub ip : Option String

pub record Metadata : Type 0 where
  pub method : String
  pub url : List ℕ
  pub body : Option Fields
  pub error : Option Exception
  pub user_agent : Option String
  pub ip : Option String

pub record Entry : Type 0 where
  pub user_id : String
  pub action : Action
  pub entity : List ℕ
  pub entity_id : Json
  pub metadata : Metadata
  pub status : Status

abbrev pub audited_methods : List String
audited_methods = "POST" ∷ "PUT" ∷ "PATCH" ∷ "DELETE" ∷ []

pub action_of : String → Action
action_of method =
    if method == "POST"
    then create
    else if method == "PUT" || method == "PATCH"
    then update
    else if method == "DELETE"
    then delete
    else unknown

-- `url.split('/')`
abbrev push : ℕ → List (List ℕ) → List (List ℕ)
push c [] = (c ∷ []) ∷ []
push c (p ∷ ps) = (c ∷ p) ∷ ps

pub split_slash : List ℕ → List (List ℕ)
split_slash [] = [] ∷ []
split_slash (c ∷ cs) = let rest = split_slash cs in if nat_eq c b'/' then [] ∷ rest else push c rest

abbrev first_or : List ℕ → List (List ℕ) → List ℕ
first_or d [] = d
first_or d (p ∷ ps) = p

-- `p && p !== 'v1'`
abbrev wanted : List ℕ → Bool
wanted p = not (same p []) && not (same p (codes "v1"))

pub extract_entity : List ℕ → List ℕ
unfolding split_slash
extract_entity url = first_or (codes "unknown") (keep wanted (split_slash url))

-- `a || b` on values that may be `undefined`.
abbrev or_json : Option Json → Json → Json
or_json none d = d
or_json (some v) d = if truthy_json v then v else d

abbrev inner_id : Option Json → Json
inner_id (some (obj fs)) = or_json (value_of "id" fs) null
inner_id _ = null

-- `response.id || response.data?.id || null`
pub extract_entity_id : Json → Json
extract_entity_id (obj fs) = or_json (value_of "id" fs) (inner_id (value_of "data" fs))
extract_entity_id _ = null

abbrev pub sensitive_fields : List String
sensitive_fields = "password" ∷ "token" ∷ "secret" ∷ "apiKey" ∷ "accessToken" ∷ "refreshToken" ∷ []

abbrev pub redacted : Json
redacted = str "***REDACTED***"

-- `if (sanitized[field]) sanitized[field] = '***REDACTED***'`; keys are distinct.
pub redact : String → Fields → Fields
redact k end = end
redact k (field j v fs) = field j (if j == k && truthy_json v then redacted else v) (redact k fs)

pub redact_all : List String → Fields → Fields
redact_all [] fs = fs
redact_all (k ∷ ks) fs = redact_all ks (redact k fs)

pub sanitize_request_body : Option Fields → Option Fields
unfolding redact_all redact
sanitize_request_body none = none
sanitize_request_body (some fs) = some (redact_all sensitive_fields fs)

pub entry_of : Request → String → Result Json → Entry
unfolding action_of extract_entity sanitize_request_body extract_entity_id
entry_of r user_id outcome = record {
  user_id = user_id;
  action = action_of r.method;
  entity = extract_entity r.url;
  entity_id = elim outcome [ ok response ↦ extract_entity_id response | throw e ↦ null ];
  metadata = record {
    method = r.method;
    url = r.url;
    body = sanitize_request_body r.body;
    error = elim outcome [ ok response ↦ none | throw e ↦ some e ];
    user_agent = r.user_agent;
    ip = r.ip;
  };
  status = elim outcome [ ok response ↦ success | throw e ↦ failure ];
}

-- `prisma.auditLog.create`, a parameter, over the state of the server.
module _ {S : Type 0} (create_log : S → Entry → Result S) where
  -- A failure to write is logged and goes no further.
  abbrev logged : Entry → S → S
  logged entry s = elim (create_log s entry) [ ok t ↦ t | throw e ↦ s ]

  audited : Request → String → Exec S Json → Exec S Json
  audited r user_id handler s =
      ((handler s).0, logged (entry_of r user_id (handler s).0) (handler s).1)

  unfoldable pub intercept : Bool → Request → Exec S Json → Exec S Json
  unfolding audited
  intercept skip_audit r handler =
      if skip_audit
      then handler
      else if includes audited_methods r.method
      then elim r.user [ none ↦ handler | some user_id ↦ audited r user_id handler ]
      else handler
