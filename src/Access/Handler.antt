-- ===== src/Access/Handler.antt =====
-- The answer to an error. http/middleware/errorHandler.ts, shared/errors.ts
use fsm_backend.Prelude.{
  opt_eq, ◌||◌, ℕ, ◌==◌, ltb, String, Bool, true, false, Option, none, some, List, map, or_else,
  or_try, truthy, if◌then◌else◌,
}

-- One issue of a `ZodError`, with what it holds beyond its path and code.
pub record Issue : Type 0 where
  pub path : List String
  pub code : String
  pub rest : Option String

-- What a handler may be given: `AppError` with its fields that may be missing, and any other error by
-- what the handler reads of it.
pub data Raised : Type 0 where
  zod : List Issue → Raised
  -- `err instanceof SyntaxError`: its `type`, its `status`, its `statusCode`, its message
  syntax : Option String → Option ℕ → Option ℕ → String → Raised
  -- message, `statusCode`, `code`, `expose`
  app_error : String → ℕ → Option String → Option Bool → Raised
  -- `status`, `statusCode`, message
  other : Option ℕ → Option ℕ → String → Raised

-- `new AppError(message, statusCode, { code, expose })`
abbrev pub new_app_error : String → ℕ → Option String → Option Bool → Raised
new_app_error message status_code code expose =
    app_error message status_code code (some (or_else expose true))

-- `ErrorResponse` with its status.
pub record Answer : Type 0 where
  pub status : ℕ
  pub message : String
  pub code : Option String
  pub details : Option (List Issue)

-- `{ path, code }`
abbrev pub short_issue : Issue → Issue
short_issue i = record i { rest = none }

-- `text || instead`
abbrev pub text_or : String → String → String
text_or t instead = or_else (truthy (some t)) instead

abbrev pub nonzero_or : ℕ → ℕ → ℕ
nonzero_or n d = if n == 0 then d else n

abbrev pub is_400 : Option ℕ → Bool
is_400 none = false
is_400 (some n) = n == 400

abbrev pub is_parse_failure : Option String → Option ℕ → Bool
is_parse_failure type status = opt_eq type (some "entity.parse.failed") || is_400 status

abbrev pub internal_error : Answer
internal_error = record {
  status = 500;
  message = "Internal Server Error";
  code = none;
  details = none;
}

-- Errors with a status, and the fallback.
abbrev pub http_answer : Option ℕ → String → Answer
http_answer (some status) message = record {
  status = status;
  message = text_or message "Error";
  code = none;
  details = none;
}
http_answer none message = internal_error

abbrev pub app_message : Bool → ℕ → String → String
app_message true status message = text_or message "Bad Request"
app_message false status message = if ltb status 500 then "Bad Request" else "Internal Server Error"

abbrev pub app_code : Bool → Option String → Option String
app_code true code = truthy code
app_code false code = none

abbrev pub app_answer : ℕ → Bool → String → Option String → Answer
app_answer status expose message code = record {
  status = status;
  message = app_message expose status message;
  code = app_code expose code;
  details = none;
}

-- `errorHandler` before the headers are sent; the lines that write the log are left out.
unfoldable pub handle_error : Bool → Raised → Answer
handle_error is_prod (zod issues) = record {
  status = 400;
  message = "Invalid request payload";
  code = some "VALIDATION";
  details = some (if is_prod then map short_issue issues else issues);
}
handle_error is_prod (syntax type status status_code message) =
    if is_parse_failure type status
    then record { status = 400; message = "Invalid JSON"; code = none; details = none }
    else http_answer (or_try status status_code) message
handle_error is_prod (app_error message status_code code expose) =
    let status = nonzero_or status_code 400 in
    app_answer status (or_else expose (ltb status 500)) message code
handle_error is_prod (other status status_code message) =
    http_answer (or_try status status_code) message
