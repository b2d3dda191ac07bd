-- ===== src/Services/Api.antt =====
-- services/api: the handler of `/v1/chat`, which relays to the orchestrator.
use frankai_online.Common.{
  ℕ, Str, js, ◌++◌, not, ◌&&◌, leb, ltb, ◌==◌, if◌then◌else◌, ◌===◌, Runtime, Option, none, some,
  Json, null, Reply,
}
use frankai_online.Services.Contract.{
  ChatRequest, ChatSuccess, unauthorized, invalid_request, orchestrator_unavailable, model_timeout,
  read_chat_request, read_success, success_json, is_error_response, request_json,
}
use frankai_online.Services.Failures.{Thrown}
use frankai_online.Services.Orchestrator.{
  token_matches, supplied_token, service_error, parsed, refused, received_body, on_error,
}

-- What `fetch` gives: a status with a body (`none` where that is no JSON), or an exception.
pub data Fetched : Type 0 where
  responded : ℕ → Option Json → Fetched
  not_reached : Thrown → Fetched

-- `fetch` to `/internal/run`: the `Authorization` header, the request id and the text of the body.
abbrev pub Fetch : Type 0
Fetch = Str → Str → Str → Fetched

unfoldable pub unavailable : Str → Reply
unavailable request_id =
    service_error 502 orchestrator_unavailable (js "Unable to complete request") request_id

unfoldable pub relay_success : Str → Option ChatSuccess → Reply
relay_success request_id none = unavailable request_id
relay_success request_id (some s) = record { status = 200; body = success_json s }

or_null : Option Json → Json
or_null none = null
or_null (some v) = v

unfoldable pub relay_status : Str → ℕ → Json → Reply
unfolding unavailable relay_success
relay_status request_id status body =
    if leb 200 status && ltb status 300
    then relay_success request_id (read_success body)
    else if status == 503 && is_error_response body
    then record { status = 503; body = body }
    else if status == 504
    then service_error 504 model_timeout (js "Model service timed out") request_id
    else unavailable request_id

unfoldable pub relay : Str → Fetched → Reply
unfolding or_null
relay request_id (responded status body) = relay_status request_id status (or_null body)
relay request_id (not_reached e) =
    if e.is_error && e.name === js "AbortError"
    then service_error 504 model_timeout (js "Model service timed out") request_id
    else service_error 502 orchestrator_unavailable (js "Unable to reach orchestrator") request_id

chat_request : Runtime → Str → Fetch → Str → Option ChatRequest → Reply
chat_request rt token fetch request_id none =
    service_error 400 invalid_request (js "Invalid request data") request_id
chat_request rt token fetch request_id (some q) =
    relay request_id
      (fetch (js "Bearer " ++ token) request_id (rt.stringify (request_json q request_id)))

-- The handler of `POST /v1/chat`, on the parsed body
unfoldable pub handle_chat : Runtime → Str → Fetch → Str → Option Str → Json → Reply
unfolding chat_request
handle_chat rt token fetch request_id authorization body =
    if not (token_matches rt token (supplied_token authorization))
    then service_error 401 unauthorized (js "Unauthorized") request_id
    else chat_request rt token fetch request_id (read_chat_request body)

-- `POST /v1/chat`, on the text of the body; this server has the same limit of the body.
unfoldable pub post_chat : Runtime → Str → Fetch → Str → Option Str → Str → Reply
post_chat rt token fetch request_id authorization text = elim (received_body rt text) [
  | parsed v ↦ handle_chat rt token fetch request_id authorization v
  | refused status ↦ on_error (some status) request_id
]
