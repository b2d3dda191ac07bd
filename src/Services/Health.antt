-- ===== src/Services/Health.antt =====
-- services/orchestrator/src/server.ts and services/api/src/server.ts: the health checks, the API
-- server that relays to an orchestrator, and shutting down.
use frankai_online.Common.{
  ℕ, ◌+◌, Str, js, List, [], ◌∷◌, ◌++◌, Bool, true, false, not, ◌&&◌, ◌||◌, leb, ltb, if◌then◌else◌,
  is_empty, trim, ◌===◌, Runtime, File, missing, unreadable, content, Option, none, some, str, obj,
  end, field, Number, Reply,
}
use frankai_online.Services.Orchestrator.{post_run, LogEntry}
use frankai_online.Services.Api.{Fetched, responded, not_reached, Fetch, post_chat}
use frankai_online.Services.Startup.{
  bounded_number, or_else, number_option, bearer_setting, Files, Machine, OrchestratorServer,
}

-- `{ status: text }`
abbrev pub status_reply : ℕ → Str → Reply
status_reply code text = record { status = code; body = obj (field (js "status") (str text) end) }

unfoldable pub health_live : Reply
health_live = status_reply 200 (js "live")

-- Whether the key file holds more than blanks; a file that cannot be opened counts as not ready.
unfoldable pub has_key : File → Bool
has_key missing = false
has_key unreadable = false
has_key (content s) = not (is_empty (trim s))

unfoldable pub secret_ready : OrchestratorServer → Files → Bool
secret_ready s files = if s.model_mode === js "openai" then has_key (files s.key_file) else true

-- `GET /health/ready` of the orchestrator
unfoldable pub orchestrator_ready : OrchestratorServer → Files → Reply
orchestrator_ready s files =
    if not (secret_ready s files) || is_empty s.bearer_token
    then status_reply 503 (js "not_ready")
    else status_reply 200 (js "ready")

-- `POST /internal/run` of a server, on the files at the time of the request
unfoldable pub serve_run :
    Runtime → OrchestratorServer → Files → Str → Option Str → Str → Reply × Option LogEntry
serve_run rt s files request_id authorization text =
    post_run rt s.bearer_token (s.runner files) request_id authorization text

pub record ApiOptions : Type 0 where
  pub bearer_token : Option Str
  pub orchestrator_url : Option Str
  pub orchestrator_timeout_ms : Option (Option Number)

pub record ApiServer : Type 0 where
  pub token : Str
  pub orchestrator_url : Str
  pub orchestrator_timeout_ms : Number

built_api : Runtime → Machine → ApiOptions → Option Str → Option ApiServer
built_api rt m o none = none
built_api rt m o (some token) = some (record {
  token = token;
  orchestrator_url =
      or_else o.orchestrator_url
        (or_else (m.env (js "API_ORCHESTRATOR_URL")) (js "http://orchestrator:8080"));
  orchestrator_timeout_ms =
      bounded_number
        (number_option rt o.orchestrator_timeout_ms (m.env (js "API_ORCHESTRATOR_TIMEOUT_MS"))
          16000)
        16000 1000 60000;
})

-- `createApiServer`; `none` is an exception.
unfoldable pub create_api_server : Runtime → Machine → ApiOptions → Files → Option ApiServer
unfolding built_api
create_api_server rt m o files = built_api rt m o (
    bearer_setting o.bearer_token
      (files (or_else (m.env (js "API_BEARER_TOKEN_FILE")) (js "/run/secrets/api_bearer_token"))))

-- `GET /health/ready` of the API, on what `fetch` gives for the orchestrator's
unfoldable pub api_ready : Fetched → Reply
api_ready (responded status body) =
    if leb 200 status && ltb status 300
    then status_reply 200 (js "ready")
    else status_reply 503 (js "not_ready")
api_ready (not_reached e) = status_reply 503 (js "not_ready")

-- `POST /v1/chat` of a server; the fetch takes the address and the time that it may take
unfoldable pub serve_chat :
    Runtime → ApiServer → (Str → Number → Fetch) → Str → Option Str → Str → Reply
serve_chat rt s fetch request_id authorization text =
    post_chat rt s.token
      (fetch (s.orchestrator_url ++ js "/internal/run") s.orchestrator_timeout_ms) request_id
      authorization text

-- The handler of a signal: the flag that a shutdown has begun, and whether the call closes the app.
pub data Signal : Type 0 where
  sigterm sigint : Signal

unfoldable pub shutdown : Bool → Bool × Bool
shutdown shutting_down = if shutting_down then (shutting_down, false) else (true, true)

-- The number of calls that close the app, over the signals that come. The handlers are registered
-- with `once`: a second signal of a kind runs no handler of the app.
abbrev pub Handlers : Type 0
Handlers = Bool × Bool

unfoldable pub handled_by : Signal → Handlers → Bool
handled_by sigterm (term, int) = term
handled_by sigint (term, int) = int

unfoldable pub without_handler : Signal → Handlers → Handlers
without_handler sigterm (term, int) = (false, int)
without_handler sigint (term, int) = (term, false)

unfoldable pub closes : List Signal → Handlers → Bool → ℕ
unfolding handled_by without_handler
closes [] handlers shutting_down = 0
closes (s ∷ signals) handlers shutting_down =
    let after = shutdown shutting_down in
    let skipped = closes signals handlers shutting_down in
    let rest = closes signals (without_handler s handlers) after.0 in
    if handled_by s handlers then (if after.1 then 1 + rest else rest) else skipped
