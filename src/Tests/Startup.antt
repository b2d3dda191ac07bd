-- ===== src/Tests/Startup.antt =====
-- The servers' theorems at two orchestrators: one that calls the model, and one with the built-in
-- replies.
use frankai_online.Common.{
  Str, js, ◌≡◌, refl, trim, ◌===◌, content, none, some, Json, null, str, obj, end, field, Runtime,
  if◌then◌else◌,
}
use frankai_online.Services.Contract.{ChatRequest, request_json}
use frankai_online.Services.Orchestrator.{broken, plain_error}
use frankai_online.Services.Startup.{
  Files, Machine, Runner, OrchestratorOptions, OrchestratorServer, openai_runner, mock_runner,
  timeout_setting, tokens_setting, prompted, selected, select_runner, bearer_setting, with_runner,
  with_token, create_orchestrator_server, load_frank_core_prompt, natural,
}
use frankai_online.Services.Health.{ApiServer}
use frankai_online.Services.Serving.{IsWithin, create_orchestrator_server-IsWithin}
use frankai_online.Services.Ready.{IsForetold, orchestrator_ready-IsForetold}
use frankai_online.Tests.Host.{host}

abbrev machine : Machine
machine = record {
  env = λ _. none;
  prompt_path = js "prompt.md";
  unreadable_error = plain_error (js "EACCES");
  call_model = λ c. broken (plain_error (js "no model"));
}

abbrev files : Files
files _ = content (js "k3y")

abbrev options : Str → OrchestratorOptions
options mode = record {
  model_runner = none;
  model = none;
  key_file = none;
  prompt_file = none;
  model_mode = some mode;
  timeout_ms = some (some (natural 5));
  max_output_tokens = some none;
  bearer_token = some (js "t0ken");
}

abbrev server : Str → Runner → OrchestratorServer
server mode runner = record {
  runner = runner;
  bearer_token = js "t0ken";
  model_mode = mode;
  key_file = js "/run/secrets/openai_api_key";
  timeout_ms = timeout_setting (host null) machine (options mode);
  max_output_tokens = tokens_setting (host null) machine (options mode);
}

abbrev openai : OrchestratorServer
openai = server (js "openai") (
    openai_runner machine (js "/run/secrets/openai_api_key") (js "gpt-5.6-luna") (trim (js "k3y"))
      (timeout_setting (host null) machine (options (js "openai")))
      (tokens_setting (host null) machine (options (js "openai"))))

abbrev mock : OrchestratorServer
mock = server (js "mock") mock_runner

openai_starts :
    create_orchestrator_server (host null) machine (options (js "openai")) files ≡ some openai
unfolding create_orchestrator_server with_token with_runner bearer_setting select_runner selected
    prompted ◌===◌ load_frank_core_prompt
openai_starts = refl

mock_starts : create_orchestrator_server (host null) machine (options (js "mock")) files ≡ some mock
unfolding create_orchestrator_server with_token with_runner bearer_setting select_runner selected
    ◌===◌
mock_starts = refl

create_orchestrator_server-IsWithin_example :
    IsWithin 1000 60000 openai.timeout_ms × IsWithin 1 1000 openai.max_output_tokens
create_orchestrator_server-IsWithin_example =
    create_orchestrator_server-IsWithin (host null) machine (options (js "openai")) files openai
      openai_starts

orchestrator_ready-IsForetold_example : IsForetold machine openai files
orchestrator_ready-IsForetold_example =
    orchestrator_ready-IsForetold (host null) machine (options (js "openai")) files files openai
      openai_starts refl refl refl

abbrev asked : Json
asked = obj (field (js "message") (str (js " hello ")) end)

abbrev request : ChatRequest
request = record { message = js "hello"; conversation_id = none }

abbrev api : ApiServer
api = record {
  token = js "t0ken";
  orchestrator_url = js "http://orchestrator:8080";
  orchestrator_timeout_ms = natural 16000;
}

-- A runtime whose two texts stand for the request and for what is sent on.
abbrev runtime : Runtime
runtime = record (host null) {
  parse = λ s. if s === js "{}" then some (request_json request (js "r1")) else some asked;
}
