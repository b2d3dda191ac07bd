-- ===== src/Services/Startup.antt =====
-- services/orchestrator/src/server.ts and services/api/src/server.ts: building the servers from
-- their options, the environment and the secret files, the health checks, and shutting down.
use frankai_online.Common.{
  ℕ, Str, js, [], ◌++◌, false, if◌then◌else◌, take, is_empty, trim, ◌===◌, Runtime, File, missing,
  unreadable, content, Option, none, some, Number, num_below, num_above,
}
use frankai_online.Services.Contract.{OrchestratorRequest, ChatSuccess, success_json}
use frankai_online.Services.Failures.{Thrown}
use frankai_online.Services.Orchestrator.{
  RunResult, returned, raised, plain_error, Called, run_model,
}

abbrev pub natural : ℕ → Number
natural n = record { negative = false; magnitude = n; shift = 0 }

unfoldable pub larger : Number → ℕ → Number
larger v minimum = if num_below v minimum then natural minimum else v

unfoldable pub smaller : Number → ℕ → Number
smaller v maximum = if num_above v maximum then natural maximum else v

-- `none` is a value that is not finite.
unfoldable pub bounded_number : Option Number → ℕ → ℕ → ℕ → Number
unfolding larger smaller
bounded_number none fallback minimum maximum = natural fallback
bounded_number (some v) fallback minimum maximum = smaller (larger v minimum) maximum

abbrev pub or_else {ℓ} : {A : Type ℓ} → Option A → A → A
or_else none a = a
or_else (some b) a = b

-- `option ?? Number(process.env.NAME ?? fallback)`
unfoldable pub number_option : Runtime → Option (Option Number) → Option Str → ℕ → Option Number
number_option rt (some v) setting fallback = v
number_option rt none none fallback = some (natural fallback)
number_option rt none (some s) fallback = rt.to_number s

-- `none` is an exception.
unfoldable pub load_token : File → Option Str
load_token missing = some []
load_token unreadable = none
load_token (content s) = some (trim s)

unfoldable pub load_frank_core_prompt : File → Option Str
load_frank_core_prompt (content s) = some (trim s)
load_frank_core_prompt _ = none

-- A call of the model's client.
pub record ModelCall : Type 0 where
  pub api_key : Str
  pub model : Str
  pub instructions : Str
  pub input : Str
  pub max_output_tokens : Number
  pub timeout_ms : Number

-- What the process runs on: the environment, the path of the prompt in the repository, the
-- exception of a file that cannot be opened, and the model's client.
pub record Machine : Type 0 where
  pub env : Str → Option Str
  pub prompt_path : Str
  pub unreadable_error : Thrown
  pub call_model : ModelCall → Called

abbrev pub Files : Type 0
Files = Str → File

abbrev pub Runner : Type 0
Runner = Files → OrchestratorRequest → RunResult

pub record OrchestratorOptions : Type 0 where
  pub model_runner : Option (OrchestratorRequest → RunResult)
  pub model : Option Str
  pub key_file : Option Str
  pub prompt_file : Option Str
  pub model_mode : Option Str
  pub timeout_ms : Option (Option Number)
  pub max_output_tokens : Option (Option Number)
  pub bearer_token : Option Str

pub record OrchestratorServer : Type 0 where
  pub runner : Runner
  pub bearer_token : Str
  pub model_mode : Str
  pub key_file : Str
  pub timeout_ms : Number
  pub max_output_tokens : Number

-- `readApiKey(path)`, and what follows with the key
unfoldable pub with_key : Machine → (Str → RunResult) → Str → RunResult
with_key m next key =
    if is_empty key then raised (plain_error (js "MODEL_SECRET_MISSING")) else next key

unfoldable pub read_api_key : Machine → File → (Str → RunResult) → RunResult
unfolding with_key
read_api_key m missing next = raised (plain_error (js "MODEL_SECRET_MISSING"))
read_api_key m unreadable next = raised m.unreadable_error
read_api_key m (content s) next = with_key m next (trim s)

-- The runner of the mode `openai`: the key is read for each request.
unfoldable pub openai_runner : Machine → Str → Str → Str → Number → Number → Runner
openai_runner m key_file model prompt timeout_ms max_output_tokens files q =
    read_api_key m (files key_file) (λ key. run_model q (
      m.call_model (record {
        api_key = key;
        model = model;
        instructions = prompt;
        input = q.message;
        max_output_tokens = max_output_tokens;
        timeout_ms = timeout_ms;
      })))

unfoldable pub mock_success : OrchestratorRequest → ChatSuccess
mock_success q = record {
  request_id = q.request_id;
  conversation_id = q.conversation_id;
  message = js "Frank Core received your request: " ++ take 160 q.message;
  usage = some (record { input_tokens = some 1; output_tokens = some 1; total_tokens = some 2 });
}

unfoldable pub mock_runner : Runner
mock_runner files q = returned (success_json (mock_success q))

abbrev pub openai_key_setting : Machine → OrchestratorOptions → Str
openai_key_setting m o =
    or_else o.key_file
      (or_else (m.env (js "ORCHESTRATOR_OPENAI_KEY_FILE")) (js "/run/secrets/openai_api_key"))

abbrev pub mode_setting : Machine → OrchestratorOptions → Str
mode_setting m o =
    or_else o.model_mode (or_else (m.env (js "ORCHESTRATOR_MODEL_MODE")) (js "openai"))

abbrev pub timeout_setting : Runtime → Machine → OrchestratorOptions → Number
timeout_setting rt m o =
    bounded_number (number_option rt o.timeout_ms (m.env (js "ORCHESTRATOR_TIMEOUT_MS")) 15000)
      15000 1000 60000

abbrev pub tokens_setting : Runtime → Machine → OrchestratorOptions → Number
tokens_setting rt m o =
    bounded_number
      (number_option rt o.max_output_tokens (m.env (js "ORCHESTRATOR_MAX_OUTPUT_TOKENS")) 300) 300 1
      1000

abbrev pub model_setting : Machine → OrchestratorOptions → Str
model_setting m o = or_else o.model (or_else (m.env (js "ORCHESTRATOR_MODEL")) (js "gpt-5.6-luna"))

unfoldable pub prompted : Runtime → Machine → OrchestratorOptions → Option Str → Option Runner
prompted rt m o none = none
prompted rt m o (some prompt) = some (
    openai_runner m (openai_key_setting m o) (model_setting m o) prompt (timeout_setting rt m o)
      (tokens_setting rt m o))

unfoldable pub selected : Runtime → Machine → OrchestratorOptions → Files → Str → Option Runner
selected rt m o files mode =
    if mode === js "mock"
    then some mock_runner
    else if mode === js "openai"
    then prompted rt m o (
        load_frank_core_prompt (
          files
            (or_else o.prompt_file (or_else (m.env (js "FRANK_CORE_PROMPT_FILE")) m.prompt_path))))
    else none

-- The runner that the options give, else the one of the mode; `none` is an exception.
unfoldable pub select_runner :
    Runtime
    → Machine
    → OrchestratorOptions
    → Files
    → Option (OrchestratorRequest → RunResult)
    → Option Runner
unfolding selected prompted
select_runner rt m o files (some r) = some (λ _ q. r q)
select_runner rt m o files none = selected rt m o files (mode_setting m o)

unfoldable pub bearer_setting : Option Str → File → Option Str
bearer_setting (some t) file = some t
bearer_setting none file = load_token file

unfoldable pub with_runner :
    Runtime → Machine → OrchestratorOptions → Str → Option Runner → Option OrchestratorServer
with_runner rt m o token none = none
with_runner rt m o token (some runner) = some (record {
  runner = runner;
  bearer_token = token;
  model_mode = mode_setting m o;
  key_file = openai_key_setting m o;
  timeout_ms = timeout_setting rt m o;
  max_output_tokens = tokens_setting rt m o;
})

unfoldable pub with_token :
    Runtime → Machine → OrchestratorOptions → Files → Option Str → Option OrchestratorServer
with_token rt m o files none = none
with_token rt m o files (some token) =
    with_runner rt m o token (select_runner rt m o files o.model_runner)

-- `createOrchestratorServer`, on the files at start-up; `none` is a start that fails.
unfoldable pub create_orchestrator_server :
    Runtime → Machine → OrchestratorOptions → Files → Option OrchestratorServer
unfolding with_token with_runner
create_orchestrator_server rt m o files = with_token rt m o files (
    bearer_setting o.bearer_token (
      files (
        or_else (m.env (js "ORCHESTRATOR_BEARER_TOKEN_FILE"))
          (js "/run/secrets/api_bearer_token"))))
