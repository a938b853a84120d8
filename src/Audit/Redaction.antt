-- ===== src/Audit/Redaction.antt =====
-- What the trail keeps of a body.
use backend_boilerplate.Base.{
  Bool, List, Option, String, [], arith, eq_iff, if◌then◌else◌, includes, none, refl, some, ◌&&◌,
  ◌==◌, ◌∷◌, ◌≡◌,
}
use backend_boilerplate.Json.{Json, Fields, end, field, truthy_json, value_of}
use backend_boilerplate.Audit.{
  sensitive_fields, redacted, redact, redact_all, sanitize_request_body,
}

-- The value that is kept of a key's.
abbrev pub kept : Bool → Option Json → Option Json
kept sensitive none = none
kept sensitive (some v) = if sensitive && truthy_json v then some redacted else some v

value_of-redact :
    (k j : String) (fs : Fields) → value_of j (redact k fs) ≡ kept (k == j) (value_of j fs)
unfolding redact
value_of-redact k j end = refl
value_of-redact k j (field i v fs) =
    ground (arith, value_of-redact k j fs, eq_iff i k, eq_iff i j, eq_iff k j)

value_of-redact_all :
    (ks : List String) (j : String) (fs : Fields)
    → value_of j (redact_all ks fs) ≡ kept (includes ks j) (value_of j fs)
unfolding redact_all
value_of-redact_all [] j fs = ground arith
value_of-redact_all (k ∷ ks) j fs =
    ground (arith, value_of-redact_all ks j (redact k fs), value_of-redact k j fs)

-- Of a sanitised body, a key of the list of sensitive fields shows the mark if its value was
-- truthy; every other key keeps its value, nested objects included.
pub sanitize_request_body_value :
    (fs out : Fields) (j : String)
    → sanitize_request_body (some fs) ≡ some out
    → value_of j out ≡ kept (includes sensitive_fields j) (value_of j fs)
unfolding sanitize_request_body
sanitize_request_body_value fs out j e = ground (arith, value_of-redact_all sensitive_fields j fs)
