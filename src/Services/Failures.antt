-- ===== src/Services/Failures.antt =====
-- services/orchestrator: the classification of a failed model call, and its diagnostic.
use frankai_online.Common.{
  ℕ, Str, js, List, [], ◌∷◌, Bool, true, false, ◌&&◌, ◌||◌, leb, ◌==◌, if◌then◌else◌, str_mem,
  ◌===◌, includes, Option, none, some,
}

-- What the code reads of a thrown value: whether it is an `Error` and a `TypeError`, the name of
-- its class (or its `typeof`), its name and message, and those members that have the type asked for.
pub record Cause : Type 0 where
  pub class_name : Str
  pub name : Str
  pub code : Option Str

pub record Thrown : Type 0 where
  pub is_error : Bool
  pub is_type_error : Bool
  pub class_name : Str
  pub name : Str
  pub message : Str
  pub status : Option ℕ
  pub code : Option Str
  pub type_name : Option Str
  pub request_id : Option Str
  pub cause : Option Cause

pub data ModelError : Type 0 where
  secret_missing timeout failure : ModelError

pub data Diagnostic : Type 0 where
  auth_failure model_not_found model_access_denied rate_limit quota_failure : Diagnostic
  invalid_request timed_out upstream_5xx network_failure unknown_failure : Diagnostic

pub data Layer : Type 0 where
  http_api fetch_layer abort dns tls socket response_parse schema sdk application_wrapper
        unknown_layer :
      Layer

is_named : Str → Thrown → Bool
is_named name e = e.is_error && e.name === name

unfoldable pub aborted : Thrown → Bool
unfolding is_named
aborted e = is_named (js "TimeoutError") e || is_named (js "AbortError") e

unfoldable pub classify_model_error : Thrown → ModelError
classify_model_error e =
    if e.is_error && e.message === js "MODEL_SECRET_MISSING"
    then secret_missing
    else if aborted e
    then timeout
    else failure

lower_or_empty : (Str → Str) → Option Str → Str
lower_or_empty lower none = []
lower_or_empty lower (some s) = lower s

unfoldable pub of_status : (Str → Str) → Thrown → Option ℕ → Diagnostic
unfolding lower_or_empty
of_status lower e none = unknown_failure
of_status lower e (some n) =
    if n == 401
    then auth_failure
    else if n == 403
    then model_access_denied
    else if n == 404
    then model_not_found
    else if n == 429
    then if includes (lower_or_empty lower e.code) (js "quota")
        || includes (lower_or_empty lower e.type_name) (js "quota")
      then quota_failure
      else rate_limit
    else if n == 400
    then invalid_request
    else if leb 500 n
    then upstream_5xx
    else unknown_failure

unfoldable pub classify_openai_upstream_error : (Str → Str) → Thrown → Diagnostic
classify_openai_upstream_error lower e =
    if aborted e
    then timed_out
    else if e.is_type_error
    then network_failure
    else of_status lower e e.status

cause_code : Option Cause → Option Str
cause_code none = none
cause_code (some c) = c.code

cause_name : Option Cause → Str
cause_name none = []
cause_name (some c) = c.name

code_is : Option Str → List Str → Bool
code_is none names = false
code_is (some s) names = str_mem s names

code_has : Option Str → Str → Bool
code_has none part = false
code_has (some s) part = includes s part

exception_name : Thrown → Str
exception_name e = if e.is_error then e.name else js "unknown"

has_status : Option ℕ → Bool
has_status none = false
has_status (some _) = true

unfoldable pub diagnostic_layer : Thrown → Layer
unfolding cause_code cause_name code_is code_has exception_name has_status
diagnostic_layer e =
    let name = exception_name e in
    let code = cause_code e.cause in
    if has_status e.status
    then http_api
    else if str_mem name (js "TimeoutError" ∷ js "AbortError" ∷ js "APIUserAbortError" ∷ [])
    then abort
    else if code_is code (js "ENOTFOUND" ∷ js "EAI_AGAIN" ∷ [])
    then dns
    else if code_has code (js "CERT")
        || code_is code (js "ERR_TLS_CERT_ALTNAME_INVALID" ∷ [])
        || includes (cause_name e.cause) (js "TLS")
    then tls
    else if code_is code (js "ECONNRESET" ∷ js "ECONNREFUSED" ∷ js "ETIMEDOUT" ∷ js "EPIPE" ∷ [])
    then socket
    else if name === js "SyntaxError"
    then response_parse
    else if e.class_name === js "APIConnectionError" || e.class_name === js "APIError"
    then sdk
    else if name === js "TypeError"
    then fetch_layer
    else if e.is_error && e.message === js "Model returned no text"
    then application_wrapper
    else unknown_layer

pub record DiagnosticReport : Type 0 where
  pub layer : Layer
  pub exception_class : Str
  pub exception_name : Str
  pub cause_class : Option Str
  pub cause_code : Option Str
  pub http_status : Option ℕ
  pub provider_error_type : Option Str
  pub provider_error_code : Option Str
  pub request_id : Option Str

cause_class_name : Option Cause → Option Str
cause_class_name none = none
cause_class_name (some c) = some c.class_name

unfoldable pub extract_openai_diagnostic : Thrown → DiagnosticReport
unfolding cause_class_name cause_code exception_name
extract_openai_diagnostic e = record {
  layer = diagnostic_layer e;
  exception_class = e.class_name;
  exception_name = exception_name e;
  cause_class = cause_class_name e.cause;
  cause_code = cause_code e.cause;
  http_status = e.status;
  provider_error_type = e.type_name;
  provider_error_code = e.code;
  request_id = e.request_id;
}
