-- ===== src/Services/Ready.antt =====
-- services/orchestrator/src/server.ts and services/api/src/server.ts: readiness, a chat with the
-- built-in replies, and shutting down.
use frankai_online.Common.{
  Str, js, Bool, true, false, ◌≡◌, ◌⊎◌, refl, sym, ◌∙◌, inl, inr, if◌then◌else◌, is_empty, trim,
  ◌===◌, Runtime, File, missing, unreadable, content, Bool-cases, arith, Option, none, some, subst,
}
use frankai_online.Common.{some-injective}
use frankai_online.Services.Contract.{OrchestratorRequest}
use frankai_online.Services.Failures.{Thrown}
use frankai_online.Services.Orchestrator.{RunResult, raised, plain_error, run_model}
use frankai_online.Services.Startup.{
  Files, Machine, ModelCall, Runner, OrchestratorOptions, OrchestratorServer, with_key,
  read_api_key, openai_runner, mode_setting, model_setting, prompted, selected, select_runner,
  create_orchestrator_server,
}
use frankai_online.Services.Serving.{IsBuilt, create-IsBuilt}
use frankai_online.Services.Health.{status_reply, has_key, secret_ready, orchestrator_ready}

-- `mode === "openai"` selects the runner that reads the key for each request.
abbrev IsOpenai : Runtime → Machine → OrchestratorOptions → OrchestratorServer → Type 0
IsOpenai rt m o s =
    (model : Str) × ((prompt : Str) × (s.runner
        ≡ openai_runner m s.key_file model prompt s.timeout_ms s.max_output_tokens))

prompted-IsOpenai :
    (rt : Runtime) (m : Machine) (o : OrchestratorOptions) (files : Files) (s : OrchestratorServer)
    (prompt : Option Str)
    → IsBuilt rt m o files s
    → prompted rt m o prompt ≡ some s.runner
    → IsOpenai rt m o s
unfolding prompted
prompted-IsOpenai rt m o files s none built e = absurd (ground arith)
prompted-IsOpenai rt m o files s (some prompt) built e =
    let key = built.key_built in
    let time = built.timeout_built in
    let tokens = built.tokens_built in
    (model_setting m o, (prompt, (rw key (rw time (rw tokens (sym (some-injective e)))))))

create-IsOpenai :
    (rt : Runtime) (m : Machine) (o : OrchestratorOptions) (files : Files) (s : OrchestratorServer)
    → o.model_runner ≡ none
    → s.model_mode ≡ js "openai"
    → IsBuilt rt m o files s
    → IsOpenai rt m o s
unfolding select_runner selected ◌===◌
create-IsOpenai rt m o files s h mode built =
    let e = built.runner_built in
    let same : mode_setting m o ≡ js "openai" = sym built.mode_built ∙ mode in
    prompted-IsOpenai rt m o files s _ built (rw same at (rw h at e))

-- A call of the model with a key, on the request's message, within the server's limits.
pub record CallsModel (m : Machine) (s : OrchestratorServer) (q : OrchestratorRequest)
    (r : RunResult) : Type 0 where
  pub call : ModelCall
  pub key_given : is_empty call.api_key ≡ false
  pub input_given : call.input ≡ q.message
  pub time_given : call.timeout_ms ≡ s.timeout_ms
  pub tokens_given : call.max_output_tokens ≡ s.max_output_tokens
  pub result : r ≡ run_model q (m.call_model call)

-- What the answer of the health check says of the runs.
abbrev pub IsForetold : Machine → OrchestratorServer → Files → Type 0
IsForetold m s files =
    ((orchestrator_ready s files ≡ status_reply 200 (js "ready"))
      × ((q : OrchestratorRequest) → CallsModel m s q (s.runner files q)))
    ⊎ ((orchestrator_ready s files ≡ status_reply 503 (js "not_ready"))
        × ((q : OrchestratorRequest) → (e : Thrown) × (s.runner files q ≡ raised e)))

openai_runner-content :
    (m : Machine) (s : OrchestratorServer) (model prompt : Str) (files : Files) (text : Str)
    (q : OrchestratorRequest)
    → files s.key_file ≡ content text
    → is_empty (trim text) ≡ false
    → CallsModel m s q
        (openai_runner m s.key_file model prompt s.timeout_ms s.max_output_tokens files q)
unfolding openai_runner read_api_key with_key
openai_runner-content m s model prompt files text q e h = record {
  call = record {
    api_key = trim text;
    model = model;
    instructions = prompt;
    input = q.message;
    max_output_tokens = s.max_output_tokens;
    timeout_ms = s.timeout_ms;
  };
  key_given = h;
  input_given = refl;
  time_given = refl;
  tokens_given = refl;
  result = (rw e (rw h refl));
}

-- A file without a key makes every run fail before it calls the model.
openai_runner-raised :
    (m : Machine) (s : OrchestratorServer) (model prompt : Str) (files : Files) (file : File)
    (q : OrchestratorRequest)
    → files s.key_file ≡ file
    → has_key file ≡ false
    → (e : Thrown) × (openai_runner m s.key_file model prompt s.timeout_ms s.max_output_tokens files
          q
        ≡ raised e)
unfolding openai_runner read_api_key with_key has_key
openai_runner-raised m s model prompt files missing q e h =
    (plain_error (js "MODEL_SECRET_MISSING"), (rw e refl))
openai_runner-raised m s model prompt files unreadable q e h = (m.unreadable_error, (rw e refl))
openai_runner-raised m s model prompt files (content text) q e h =
    let blank : is_empty (trim text) ≡ true = ground arith in
    (plain_error (js "MODEL_SECRET_MISSING"), (rw e (rw blank refl)))

orchestrator_ready_lem :
    (s : OrchestratorServer) (files : Files) (b : Bool)
    → s.model_mode ≡ js "openai"
    → is_empty s.bearer_token ≡ false
    → has_key (files s.key_file) ≡ b
    → orchestrator_ready s files
      ≡ (if b then status_reply 200 (js "ready") else status_reply 503 (js "not_ready"))
unfolding orchestrator_ready secret_ready ◌===◌
orchestrator_ready_lem s files true mode token h = rw mode (rw token (rw h refl))
orchestrator_ready_lem s files false mode token h = rw mode (rw token (rw h refl))

has_key-content :
    (file : File)
    → has_key file ≡ true
    → (text : Str) × ((file ≡ content text) × (is_empty (trim text) ≡ false))
unfolding has_key
has_key-content missing h = absurd (ground arith)
has_key-content unreadable h = absurd (ground arith)
has_key-content (content text) h = (text, (refl, ground arith))

-- An orchestrator that starts in the mode `openai`, without a runner of its own and with a token,
-- foretells its runs: where its health check answers that it is ready, the files staying as they
-- are, every run calls the model with a key that is not empty, on the request's message, within the
-- server's limits; where it answers that it is not, every run fails before it calls the model.
pub orchestrator_ready-IsForetold :
    (rt : Runtime) (m : Machine) (o : OrchestratorOptions) (start files : Files)
    (s : OrchestratorServer)
    → create_orchestrator_server rt m o start ≡ some s
    → o.model_runner ≡ none
    → s.model_mode ≡ js "openai"
    → is_empty s.bearer_token ≡ false
    → IsForetold m s files
orchestrator_ready-IsForetold rt m o start files s h none_given mode token =
    let (model, (prompt, built)) =
      create-IsOpenai rt m o start s none_given mode (create-IsBuilt rt m o start s h) in
    elim (Bool-cases (has_key (files s.key_file))) [
      | inl e ↦
          let (text, (given, full)) = has_key-content (files s.key_file) e in
          inl (
            orchestrator_ready_lem s files true mode token e,
            (λ q.
                subst (λ (r : Runner). CallsModel m s q (r files q)) (sym built)
                  (openai_runner-content m s model prompt files text q given full)),
          )
      | inr e ↦ inr (
        orchestrator_ready_lem s files false mode token e,
        (λ q.
            subst (λ (r : Runner). (e : Thrown) × (r files q ≡ raised e)) (sym built)
              (openai_runner-raised m s model prompt files (files s.key_file) q refl e)),
      )
    ]
