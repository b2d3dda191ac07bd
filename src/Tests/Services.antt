-- ===== src/Tests/Services.antt =====
-- The chat services' theorems at a concrete request.
use frankai_online.Common.{
  js, Runtime, if◌then◌else◌, ◌===◌, none, some, Json, null, str, obj, end, field,
}
use frankai_online.Services.Contract.{ChatRequest, request_json}
use frankai_online.Services.Orchestrator.{RunResult, raised, plain_error}
use frankai_online.Tests.Host.{host}

abbrev asked : Json
asked = obj (field (js "message") (str (js " hi ")) end)

abbrev request : ChatRequest
request = record { message = js "hi"; conversation_id = none }

abbrev failing : RunResult
failing = raised (plain_error (js "Model returned no text"))

-- A runtime whose two texts stand for the request and for what is sent on.
abbrev runtime : Runtime
runtime = record (host null) {
  parse = λ s. if s === js "{}" then some (request_json request (js "r1")) else some asked;
}
