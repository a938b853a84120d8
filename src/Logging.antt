-- ===== src/Logging.antt =====
-- src/core/interceptors/logging.interceptor.ts, which no module installs. The log is a list, the latest
-- last, before the state of the handler; the stack of an error is left out. Texts are as in Mask.
mod Tests
use backend_boilerplate.Base.{
  Exception, Exec, List, Option, Result, String, [], error, http, ok, throw, ℕ, ◌*◌, ◌++◌, ◌∷◌,
}
use backend_boilerplate.Json.{Json}
use backend_boilerplate.Mask.{mask_object}

pub record Request : Type 0 where
  pub request_id : Option String
  pub method : String
  pub url : String
  pub body : Json

pub data LogEntry : Type 0 where
  request : (request_id : Option String) → (method url : String) → (body : Json) → LogEntry
  response :
      (request_id : Option String)
      → (method url : String) → (status_code : ℕ) → (started ended : ℕ) → LogEntry
  failed :
      (request_id : Option String)
      → (method url : String) → (message : String) → (started ended : ℕ) → LogEntry

pub record Logged (S : Type 0) : Type 0 where
  pub log : List LogEntry
  pub state : S

abbrev pub message_of : Exception → String
message_of (http status message) = message
message_of (error message) = message

module _ {S : Type 0} (lower : String → String) (to_text : Json → String) (now : S → ℕ) where
  abbrev pub outcome_entry : Request → ℕ → ℕ → ℕ → {A : Type 0} → Result A → LogEntry
  outcome_entry r status_code started ended (ok a) =
      response r.request_id r.method r.url status_code started ended
  outcome_entry r status_code started ended (throw e) =
      failed r.request_id r.method r.url (message_of e) started ended

  unfoldable pub intercept :
      {A : Type 0} → Request → (status_code : ℕ) → Exec S A → Exec (Logged S) A
  intercept r status_code handler l =
      let result = handler l.state in
      (
        result.0,
        record {
          log =
              (l.log ++ request r.request_id r.method r.url (mask_object lower to_text r.body) ∷ [])
              ++ outcome_entry r status_code (now l.state) (now result.1) result.0 ∷ [];
          state = result.1;
        },
      )
