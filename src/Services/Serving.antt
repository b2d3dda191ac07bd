-- ===== src/Services/Serving.antt =====
-- services/orchestrator/src/server.ts and services/api/src/server.ts: the servers that start, their
-- limits, their readiness, and a chat with the built-in replies.
use frankai_online.Common.{
  ℕ, ◌≤◌, Str, js, false, ◌≡◌, refl, sym, inl, inr, Runtime, Bool-cases, arith, Option, none, some,
  Number, num_below, num_above, subst,
}
use frankai_online.Common.{some-injective}
use frankai_online.Services.Startup.{
  natural, larger, smaller, bounded_number, number_option, Files, Machine, Runner,
  OrchestratorOptions, OrchestratorServer, openai_key_setting, mode_setting, timeout_setting,
  tokens_setting, select_runner, with_runner, with_token, create_orchestrator_server,
}

-- A number between two natural numbers.
abbrev pub IsWithin : ℕ → ℕ → Number → Type 0
IsWithin minimum maximum v = (num_below v minimum ≡ false) × (num_above v maximum ≡ false)

natural-IsWithin :
    (n minimum maximum : ℕ) → minimum ≤ n → n ≤ maximum → IsWithin minimum maximum (natural n)
unfolding num_below num_above
natural-IsWithin n minimum maximum h k = (ground arith, ground arith)

larger_lem : (v : Number) (minimum : ℕ) → num_below (larger v minimum) minimum ≡ false
unfolding larger
larger_lem v minimum = elim (Bool-cases (num_below v minimum)) [
  | inl e ↦ (rw e (natural-IsWithin minimum minimum minimum (omega arith) (omega arith)).0)
  | inr e ↦ (rw e e)
]

smaller-IsWithin :
    (v : Number) (minimum maximum : ℕ)
    → minimum ≤ maximum
    → num_below v minimum ≡ false
    → IsWithin minimum maximum (smaller v maximum)
unfolding smaller
smaller-IsWithin v minimum maximum h e = elim (Bool-cases (num_above v maximum)) [
  | inl d ↦ (rw d (natural-IsWithin maximum minimum maximum h (omega arith)))
  | inr d ↦ (rw d (e, d))
]

bounded_number-IsWithin :
    (v : Option Number) (fallback minimum maximum : ℕ)
    → minimum ≤ fallback
    → fallback ≤ maximum
    → IsWithin minimum maximum (bounded_number v fallback minimum maximum)
unfolding bounded_number
bounded_number-IsWithin none fallback minimum maximum h k =
    natural-IsWithin fallback minimum maximum h k
bounded_number-IsWithin (some v) fallback minimum maximum h k =
    smaller-IsWithin (larger v minimum) minimum maximum (omega arith) (larger_lem v minimum)

-- What a server that has started is built from.
pub record IsBuilt (rt : Runtime) (m : Machine) (o : OrchestratorOptions) (files : Files)
    (s : OrchestratorServer) : Type 0 where
  pub runner_built : select_runner rt m o files o.model_runner ≡ some s.runner
  pub mode_built : s.model_mode ≡ mode_setting m o
  pub key_built : s.key_file ≡ openai_key_setting m o
  pub timeout_built : s.timeout_ms ≡ timeout_setting rt m o
  pub tokens_built : s.max_output_tokens ≡ tokens_setting rt m o

with_runner-IsBuilt :
    (rt : Runtime) (m : Machine) (o : OrchestratorOptions) (files : Files) (token : Str)
    (r : Option Runner) (s : OrchestratorServer)
    → select_runner rt m o files o.model_runner ≡ r
    → with_runner rt m o token r ≡ some s
    → IsBuilt rt m o files s
unfolding with_runner
with_runner-IsBuilt rt m o files token none s e h = absurd (ground arith)
with_runner-IsBuilt rt m o files token (some r) s e h =
    subst (IsBuilt rt m o files) (some-injective h) (record {
      runner_built = e;
      mode_built = refl;
      key_built = refl;
      timeout_built = refl;
      tokens_built = refl;
    })

with_token-IsBuilt :
    (rt : Runtime) (m : Machine) (o : OrchestratorOptions) (files : Files) (token : Option Str)
    (s : OrchestratorServer)
    → with_token rt m o files token ≡ some s
    → IsBuilt rt m o files s
unfolding with_token
with_token-IsBuilt rt m o files none s h = absurd (ground arith)
with_token-IsBuilt rt m o files (some token) s h =
    with_runner-IsBuilt rt m o files token (select_runner rt m o files o.model_runner) s refl h

pub create-IsBuilt :
    (rt : Runtime) (m : Machine) (o : OrchestratorOptions) (files : Files) (s : OrchestratorServer)
    → create_orchestrator_server rt m o files ≡ some s
    → IsBuilt rt m o files s
unfolding create_orchestrator_server
create-IsBuilt rt m o files s h = with_token-IsBuilt rt m o files _ s h

-- Whatever its options and its environment say, an orchestrator that starts gives the model between
-- 1,000 and 60,000 milliseconds for an answer of 1 to 1,000 tokens.
pub create_orchestrator_server-IsWithin :
    (rt : Runtime) (m : Machine) (o : OrchestratorOptions) (files : Files) (s : OrchestratorServer)
    → create_orchestrator_server rt m o files ≡ some s
    → IsWithin 1000 60000 s.timeout_ms × IsWithin 1 1000 s.max_output_tokens
create_orchestrator_server-IsWithin rt m o files s h =
    let built = create-IsBuilt rt m o files s h in
    (
      subst (IsWithin 1000 60000) (sym built.timeout_built) (
          bounded_number-IsWithin
            (number_option rt o.timeout_ms (m.env (js "ORCHESTRATOR_TIMEOUT_MS")) 15000) 15000 1000
            60000 (omega arith) (omega arith)),
      subst (IsWithin 1 1000) (sym built.tokens_built) (
          bounded_number-IsWithin
            (number_option rt o.max_output_tokens (m.env (js "ORCHESTRATOR_MAX_OUTPUT_TOKENS")) 300)
            300 1 1000 (omega arith) (omega arith)),
    )
