-- ===== src/Services/Chain/Forwarding.antt =====
-- services/api over services/orchestrator: what a client is answered, over a call that may be refused
-- or run out of time.
use frankai_online.Common.{
  ℕ, ◌≤◌, not, ltb, if◌then◌else◌, Number, num_above, Str, js, true, false, ◌≡◌, refl, length,
  Runtime, arith, some, Reply,
}
use frankai_online.Services.Contract.{
  ChatRequest, OrchestratorRequest, model_timeout, model_secret_missing, orchestrator_unavailable,
  request_json,
}
use frankai_online.Services.Failures.{Thrown, ModelError, secret_missing, timeout, failure}
use frankai_online.Services.Orchestrator.{
  RunResult, service_error, post_run, finish_run, plain_error, body_limit_bytes,
}
use frankai_online.Services.Api.{responded, not_reached, Fetch, relay_status}

-- The error with which `fetch` ends where its signal aborts it
abbrev pub abort_error : Thrown
abort_error = record (plain_error (js "This operation was aborted")) {
  class_name = js "DOMException";
  name = js "AbortError";
}

-- The service behind `fetch` is the orchestrator, with the same token; its whole reply takes
-- `elapsed` milliseconds, and the signal aborts the call after `limit` milliseconds.
abbrev pub orchestrator_fetch :
    Runtime → Str → (OrchestratorRequest → RunResult) → ℕ → Number → Fetch
orchestrator_fetch rt token runner elapsed limit authorization request_id text =
    let reply = (post_run rt token runner request_id (some authorization) text).0 in
    if num_above limit elapsed
    then responded reply.status (some reply.body)
    else not_reached abort_error

abbrev pub for_orchestrator : ChatRequest → Str → OrchestratorRequest
for_orchestrator q i = record {
  message = q.message;
  conversation_id = q.conversation_id;
  request_id = i;
}

-- The reply that a run's result is turned into on its way out.
abbrev pub public_reply : Runtime → Str → RunResult → Reply
public_reply rt i r = let reply = (finish_run rt i r).0 in relay_status i reply.status reply.body

-- The text that is sent on for a request.
abbrev pub forwarded : Runtime → ChatRequest → Str → Str
forwarded rt q i = rt.stringify (request_json q i)

-- What a client is answered for an accepted request.
abbrev pub chain_reply : Runtime → Str → ℕ → Number → ChatRequest → RunResult → Reply
chain_reply rt i elapsed limit q r =
    if not (num_above limit elapsed)
    then service_error 504 model_timeout (js "Model service timed out") i
    else if ltb body_limit_bytes (length (rt.utf8 (forwarded rt q i)))
    then service_error 502 orchestrator_unavailable (js "Unable to complete request") i
    else public_reply rt i r

pub chain_reply-within :
    (rt : Runtime) (i : Str) (elapsed : ℕ) (limit : Number) (q : ChatRequest) (r : RunResult)
    → num_above limit elapsed ≡ true
    → length (rt.utf8 (forwarded rt q i)) ≤ body_limit_bytes
    → chain_reply rt i elapsed limit q r ≡ public_reply rt i r
chain_reply-within rt i elapsed limit q r time within =
    let short : ltb body_limit_bytes (length (rt.utf8 (forwarded rt q i))) ≡ false = ground arith in
    rw time (rw short refl)

-- What the client is told of a failed call.
abbrev pub failure_reply : Str → ModelError → Reply
failure_reply i secret_missing =
    service_error 503 model_secret_missing (js "Model service is not configured") i
failure_reply i timeout = service_error 504 model_timeout (js "Model service timed out") i
failure_reply i failure =
    service_error 502 orchestrator_unavailable (js "Unable to complete request") i
