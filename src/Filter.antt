-- ===== src/Filter.antt =====
-- src/core/filters/http-exception.filter.ts, with the codes and messages of
-- src/shared/constants/error-codes.ts that it uses.
mod Codes
mod Tests
use backend_boilerplate.Base.{
  Exception, List, Option, String, error, http, if◌then◌else◌, nat_eq, none, not, some, truthy, ℕ,
  ◌*◌, ◌||◌,
}

pub data ErrorCode : Type 0 where
  auth_unauthorized auth_forbidden auth_invalid_credentials auth_token_expired : ErrorCode
  auth_token_invalid auth_user_inactive user_not_found user_already_exists : ErrorCode
  user_email_in_use validation_error invalid_input database_error : ErrorCode
  record_not_found duplicate_entry file_too_large file_type_not_allowed : ErrorCode
  file_upload_failed rate_limit_exceeded feature_disabled feature_not_found : ErrorCode
  duplicate_request internal_server_error service_unavailable bad_request : ErrorCode
  not_found : ErrorCode

-- `ERROR_MESSAGES`
unfoldable pub error_message : ErrorCode → String
error_message auth_unauthorized = "Authentication required"
error_message auth_forbidden = "Insufficient permissions"
error_message auth_invalid_credentials = "Invalid email or password"
error_message auth_token_expired = "Token has expired"
error_message auth_token_invalid = "Invalid token"
error_message auth_user_inactive = "User account is inactive"
error_message user_not_found = "User not found"
error_message user_already_exists = "User already exists"
error_message user_email_in_use = "Email address is already in use"
error_message validation_error = "Validation failed"
error_message invalid_input = "Invalid input data"
error_message database_error = "Database operation failed"
error_message record_not_found = "Record not found"
error_message duplicate_entry = "Duplicate entry"
error_message file_too_large = "File size exceeds limit"
error_message file_type_not_allowed = "File type not allowed"
error_message file_upload_failed = "File upload failed"
error_message rate_limit_exceeded = "Too many requests"
error_message feature_disabled = "Feature is currently disabled"
error_message feature_not_found = "Feature flag not found"
error_message duplicate_request = "Duplicate request detected"
error_message internal_server_error = "Internal server error"
error_message service_unavailable = "Service temporarily unavailable"
error_message bad_request = "Bad request"
error_message not_found = "Resource not found"

-- `message` of an exception's response: absent, a text, or the list of failed validations.
pub data Message : Type 0 where
  absent : Message
  single : String → Message
  many : List String → Message

-- `getResponse()`: a text, or an object. A code of the object's own is a text.
pub data ExceptionResponse : Type 0 where
  plain : String → ExceptionResponse
  object :
      (message : Message) (error_code : Option String) (details : Option String) → ExceptionResponse

-- What the filter catches: an `HttpException`, another `Error`, or anything else that was thrown.
pub data Thrown : Type 0 where
  http_exception : (status : ℕ) → ExceptionResponse → Thrown
  js_error : (message : String) → Thrown
  other : Thrown

pub data Code : Type 0 where
  known : ErrorCode → Code
  own : String → Code

pub data Details : Type 0 where
  no_details : Details
  detail : String → Details
  validation : List String → Details

pub record ErrorResponse : Type 0 where
  pub status : ℕ
  pub code : Code
  pub message : String
  pub details : Details
  pub request_id : Option String

unfoldable pub map_status_to_error_code : ℕ → ErrorCode
map_status_to_error_code status =
    if nat_eq status 400
    then bad_request
    else if nat_eq status 401
    then auth_unauthorized
    else if nat_eq status 403
    then auth_forbidden
    else if nat_eq status 404
    then not_found
    else if nat_eq status 429
    then rate_limit_exceeded
    else if nat_eq status 503
    then service_unavailable
    else internal_server_error

-- `responseObj.message || message`, where a list is replaced afterwards.
abbrev message_or : String → Message → String
message_or d absent = d
message_or d (single m) = if truthy m then m else d
message_or d (many ms) = error_message validation_error

abbrev code_or : ErrorCode → Message → Option String → Code
code_or d (many ms) c = known validation_error
code_or d m none = known d
code_or d m (some c) = if truthy c then own c else known d

abbrev details_or : Message → Option String → Details
details_or (many ms) d = validation ms
details_or m none = no_details
details_or m (some d) = detail d

unfoldable pub catch_exception : Thrown → Option String → ErrorResponse
unfolding error_message map_status_to_error_code
catch_exception (http_exception status (object message error_code details)) request_id = record {
  status = status;
  code = code_or (map_status_to_error_code status) message error_code;
  message = message_or (error_message internal_server_error) message;
  details = details_or message details;
  request_id = request_id;
}
catch_exception (http_exception status (plain text)) request_id = record {
  status = status;
  code = known internal_server_error;
  message = text;
  details = no_details;
  request_id = request_id;
}
catch_exception (js_error message) request_id = record {
  status = 500;
  code = known internal_server_error;
  message = message;
  details = no_details;
  request_id = request_id;
}
catch_exception other request_id = record {
  status = 500;
  code = known internal_server_error;
  message = error_message internal_server_error;
  details = no_details;
  request_id = request_id;
}

-- A built-in exception of Nest, such as `ConflictException`, given a message: an object response
-- with no code of its own. Any other exception is an `Error`.
abbrev pub thrown : Exception → Thrown
thrown (http status message) = http_exception status (object (single message) none none)
thrown (error message) = js_error message
