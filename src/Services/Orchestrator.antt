-- ===== src/Services/Orchestrator.antt =====
-- services/orchestrator and agents/frank-core: the handler of `/internal/run` and its runner.
use frankai_online.Common.{
  ℕ, ◌*◌, Str, js, [], Bool, true, false, not, ◌&&◌, ◌||◌, ltb, ◌==◌, if◌then◌else◌, length,
  is_empty, trim, starts_with, Runtime, Option, none, some, Json, Reply,
}
use frankai_online.Memory.Access.{after, bytes_eq}
use frankai_online.Services.Contract.{
  OrchestratorRequest, ChatSuccess, Usage, ErrorCode, unauthorized, invalid_request, internal_error,
  model_secret_missing, model_timeout, model_failure, read_orchestrator_request, read_success,
  success_json, error_json,
}
use frankai_online.Services.Failures.{
  Thrown, ModelError, secret_missing, timeout, failure, Diagnostic, DiagnosticReport,
  classify_model_error, classify_openai_upstream_error, extract_openai_diagnostic,
}

unfoldable pub token_matches : Runtime → Str → Str → Bool
token_matches rt expected supplied =
    if is_empty expected || is_empty supplied
    then false
    else length (rt.utf8 expected) == length (rt.utf8 supplied)
      && bytes_eq (rt.utf8 expected) (rt.utf8 supplied)

-- The token of an `Authorization` header, which counts as empty where it is absent.
unfoldable pub supplied_token : Option Str → Str
supplied_token none = []
supplied_token (some a) = if starts_with a (js "Bearer ") then trim (after 7 a) else []

-- What a runner gives: a value that is still to be checked, or an exception.
pub data RunResult : Type 0 where
  returned : Json → RunResult
  raised : Thrown → RunResult

-- `new Error(message)`
abbrev pub plain_error : Str → Thrown
plain_error message = record {
  is_error = true;
  is_type_error = false;
  class_name = js "Error";
  name = js "Error";
  message = message;
  status = none;
  code = none;
  type_name = none;
  request_id = none;
  cause = none;
}

pub record ModelAnswer : Type 0 where
  pub output_text : Str
  pub usage : Option Usage

pub data Called : Type 0 where
  answered : ModelAnswer → Called
  broken : Thrown → Called

checked_answer : OrchestratorRequest → Option Usage → Str → RunResult
checked_answer request usage message =
    if is_empty message
    then raised (plain_error (js "Model returned no text"))
    else returned (
        success_json (record {
          request_id = request.request_id;
          conversation_id = request.conversation_id;
          message = message;
          usage = usage;
        }))

-- The runner over the client's answer to the request's message.
unfoldable pub run_model : OrchestratorRequest → Called → RunResult
unfolding checked_answer
run_model request (broken e) = raised e
run_model request (answered a) = checked_answer request a.usage (trim a.output_text)

pub record LogEntry : Type 0 where
  pub code : ErrorCode
  pub upstream_class : Option Diagnostic
  pub diagnostic : Option DiagnosticReport

abbrev pub service_error : ℕ → ErrorCode → Str → Str → Reply
service_error status code message request_id = record {
  status = status;
  body = error_json code message request_id;
}

-- The reply to a failed call, and the entry of the log.
unfoldable pub model_error_reply : Runtime → Str → Thrown → ModelError → Reply × Option LogEntry
model_error_reply rt request_id e secret_missing = (
  service_error 503 model_secret_missing (js "Model service is not configured") request_id,
  some (record { code = model_secret_missing; upstream_class = none; diagnostic = none }),
)
model_error_reply rt request_id e timeout = (
  service_error 504 model_timeout (js "Model service timed out") request_id,
  some (record { code = model_timeout; upstream_class = none; diagnostic = none }),
)
model_error_reply rt request_id e failure = (
  service_error 502 model_failure (js "Model service failed") request_id,
  some (record {
    code = model_failure;
    upstream_class = some (classify_openai_upstream_error rt.lower e);
    diagnostic = some (extract_openai_diagnostic e);
  }),
)

unfoldable pub failed_run : Runtime → Str → Thrown → Reply × Option LogEntry
failed_run rt request_id e = model_error_reply rt request_id e (classify_model_error e)

unfoldable pub checked_run : Runtime → Str → Option ChatSuccess → Reply × Option LogEntry
checked_run rt request_id none =
    failed_run rt request_id (plain_error (js "Invalid model response"))
checked_run rt request_id (some s) = (record { status = 200; body = success_json s }, none)

unfoldable pub finish_run : Runtime → Str → RunResult → Reply × Option LogEntry
finish_run rt request_id (raised e) = failed_run rt request_id e
finish_run rt request_id (returned v) = checked_run rt request_id (read_success v)

unfoldable pub run_request :
    Runtime
    → (OrchestratorRequest → RunResult)
    → Str
    → Option OrchestratorRequest
    → Reply × Option LogEntry
run_request rt runner request_id none =
    (service_error 400 invalid_request (js "Invalid request data") request_id, none)
run_request rt runner request_id (some q) = finish_run rt request_id (runner q)

-- The handler of `POST /internal/run`, on the parsed body
unfoldable pub handle_run :
    Runtime
    → Str
    → (OrchestratorRequest → RunResult)
    → Str
    → Option Str
    → Json
    → Reply × Option LogEntry
handle_run rt bearer_token runner request_id authorization body =
    if not (token_matches rt bearer_token (supplied_token authorization))
    then (service_error 401 unauthorized (js "Unauthorized") request_id, none)
    else run_request rt runner request_id (read_orchestrator_request body)

-- The error handler of either service, on the status that the framework gives the error.
unfoldable pub on_error : Option ℕ → Str → Reply
on_error none request_id = service_error 500 internal_error (js "Internal server error") request_id
on_error (some n) request_id =
    if n == 400 || n == 413 || n == 415
    then service_error n invalid_request (js "Invalid request data") request_id
    else service_error (if ltb n 500 then n else 500) internal_error (js "Internal server error")
        request_id

-- `BODY_LIMIT_BYTES`
abbrev pub body_limit_bytes : ℕ
body_limit_bytes = 16 * 1024

-- What the web framework hands to a handler: the JSON value of a body, or the status of the error
-- with which it turns to the error handler instead.
pub data Received : Type 0 where
  parsed : Json → Received
  refused : ℕ → Received

unfoldable pub parsed_text : Option Json → Received
parsed_text none = refused 400
parsed_text (some v) = parsed v

-- A server with the option `bodyLimit: BODY_LIMIT_BYTES`, on the text of a JSON body
unfoldable pub received_body : Runtime → Str → Received
unfolding parsed_text
received_body rt text =
    if ltb body_limit_bytes (length (rt.utf8 text))
    then refused 413
    else parsed_text (rt.parse text)

-- `POST /internal/run`, on the text of the body
unfoldable pub post_run :
    Runtime
    → Str
    → (OrchestratorRequest → RunResult)
    → Str
    → Option Str
    → Str
    → Reply × Option LogEntry
post_run rt bearer_token runner request_id authorization text = elim (received_body rt text) [
  | parsed v ↦ handle_run rt bearer_token runner request_id authorization v
  | refused status ↦ (on_error (some status) request_id, none)
]
