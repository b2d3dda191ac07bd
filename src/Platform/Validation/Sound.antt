-- ===== src/Platform/Validation/Sound.antt =====
-- lib/platform/validation.ts: the configurations that it accepts.
use frankai_online.Common.{
  Str, js, [], ◌∷◌, ◌++◌, false, ◌≡◌, refl, inl, inr, is_empty, trim, trim-IsClean, Bool-cases,
  arith, Option, none, some, Json, str, obj, Fields, get, accepted, accepted-injective,
}
use frankai_online.Platform.Config.{
  not_started, checklist_status_text, moderate, risk_text, PlatformConfig,
}
use frankai_online.Platform.Report.{Report, append-eq-nil}
use frankai_online.Platform.Parse.{one_of}
use frankai_online.Platform.Parse.Laws.{
  required_string-IsClean, string_list-IsTexts, parse_list-All,
}
use frankai_online.Platform.Validation.{
  checklist_statuses, risk_levels, parse_stage, parse_stages, parse_capability, parse_capabilities,
  parse_agent, parse_agents, blocks, parse_item, parse_checklist, filled_text, trimmed_text,
  text_or, parse_config, unless_errors, validate_platform_config,
}
use frankai_online.Platform.Validation.Encode.{
  IsStage, IsCapability, IsAgent, IsItem, HasText, HasCleanText, IsConfig,
}

parse_stage-IsStage :
    (at : Str) (fs : Fields) → (parse_stage at fs).1 ≡ [] → IsStage (parse_stage at fs).0
unfolding parse_stage
parse_stage-IsStage at fs h =
    let (_, h1) = append-eq-nil _ _ h in
    let (id, h2) = append-eq-nil _ _ h1 in
    let (title, h3) = append-eq-nil _ _ h2 in
    let (objective, h4) = append-eq-nil _ _ h3 in
    let (owner, h5) = append-eq-nil _ _ h4 in
    let (window, h6) = append-eq-nil _ _ h5 in
    let (deliverables, _) = append-eq-nil _ _ h6 in
    record {
      id = required_string-IsClean _ _ id;
      title = required_string-IsClean _ _ title;
      objective = required_string-IsClean _ _ objective;
      owner = required_string-IsClean _ _ owner;
      target_window = required_string-IsClean _ _ window;
      deliverables = string_list-IsTexts _ _ deliverables;
    }

parse_capability-IsCapability :
    (at : Str) (fs : Fields)
    → (parse_capability at fs).1 ≡ []
    → IsCapability (parse_capability at fs).0
unfolding parse_capability
parse_capability-IsCapability at fs h =
    let (id, h1) = append-eq-nil _ _ h in
    let (name, h2) = append-eq-nil _ _ h1 in
    let (description, h3) = append-eq-nil _ _ h2 in
    let (state, h4) = append-eq-nil _ _ h3 in
    let (next, _) = append-eq-nil _ _ h4 in
    record {
      id = required_string-IsClean _ _ id;
      name = required_string-IsClean _ _ name;
      description = required_string-IsClean _ _ description;
      current_state = required_string-IsClean _ _ state;
      next_step = required_string-IsClean _ _ next;
    }

parse_agent-IsAgent :
    (at : Str) (fs : Fields) → (parse_agent at fs).1 ≡ [] → IsAgent (parse_agent at fs).0
unfolding parse_agent
parse_agent-IsAgent at fs h =
    let (_, h0) = append-eq-nil _ _ h in
    let (_, h1) = append-eq-nil _ _ h0 in
    let (id, h2) = append-eq-nil _ _ h1 in
    let (name, h3) = append-eq-nil _ _ h2 in
    let (role, h4) = append-eq-nil _ _ h3 in
    let (allowed, h5) = append-eq-nil _ _ h4 in
    let (blocked_actions, h6) = append-eq-nil _ _ h5 in
    let (owner, _) = append-eq-nil _ _ h6 in
    record {
      id = required_string-IsClean _ _ id;
      name = required_string-IsClean _ _ name;
      role = required_string-IsClean _ _ role;
      allowed_actions = string_list-IsTexts _ _ allowed;
      blocked_actions = string_list-IsTexts _ _ blocked_actions;
      owner = required_string-IsClean _ _ owner;
    }

parse_item-IsItem :
    (at : Str) (fs : Fields) → (parse_item at fs).1 ≡ [] → IsItem (parse_item at fs).0
unfolding parse_item
parse_item-IsItem at fs h =
    let status =
      one_of checklist_status_text checklist_statuses not_started (get fs (js "status"))
        (at ++ js ".status") in
    let risk =
      one_of risk_text risk_levels moderate (get fs (js "riskLevel")) (at ++ js ".riskLevel") in
    let (_, h0) = append-eq-nil status.1 _ h in
    let (_, h1) = append-eq-nil risk.1 _ h0 in
    let (_, h2) =
      append-eq-nil (blocks (get fs (js "blocksProgression")) (at ++ js ".blocksProgression")).1 _
        h1 in
    let (id, h3) = append-eq-nil _ _ h2 in
    let (phase, h4) = append-eq-nil _ _ h3 in
    let (title, h5) = append-eq-nil _ _ h4 in
    let (owner, h6) = append-eq-nil _ _ h5 in
    let (evidence, _) = append-eq-nil _ [] h6 in
    record {
      id = required_string-IsClean _ _ id;
      phase_id = required_string-IsClean _ _ phase;
      title = required_string-IsClean _ _ title;
      owner = required_string-IsClean _ _ owner;
      required_evidence = string_list-IsTexts _ _ evidence;
    }

filled_text-HasText : (v : Option Json) → HasText (filled_text v)
unfolding filled_text
filled_text-HasText (some (str s)) = ground arith
filled_text-HasText _ = tt

trimmed_text-HasCleanText : (v : Option Json) → HasCleanText (trimmed_text v)
unfolding trimmed_text
trimmed_text-HasCleanText (some (str s)) = elim (Bool-cases (is_empty (trim s))) [
  | inl e ↦ rw e tt
  | inr e ↦ rw e (trim-IsClean s e)
]
trimmed_text-HasCleanText _ = tt

text_or-filled :
    (o : Option Str) (now : Str)
    → HasText o
    → is_empty (trim now) ≡ false
    → is_empty (trim (text_or o now)) ≡ false
unfolding text_or
text_or-filled none now h k = k
text_or-filled (some s) now h k = h

parse_config-IsConfig :
    (now : Str) (input : Fields)
    → is_empty (trim now) ≡ false
    → (parse_config now input).1 ≡ []
    → IsConfig (parse_config now input).0
unfolding parse_config parse_stages parse_capabilities parse_agents parse_checklist
parse_config-IsConfig now input k h =
    let (notes, h1) = append-eq-nil _ _ h in
    let (stages, h2) = append-eq-nil _ _ h1 in
    let (capabilities, h3) = append-eq-nil _ _ h2 in
    let (agents, h4) = append-eq-nil _ _ h3 in
    let (checklist, _) = append-eq-nil _ _ h4 in
    let s = parse_list-All parse_stage IsStage parse_stage-IsStage _ _ _ stages in
    let c =
      parse_list-All parse_capability IsCapability parse_capability-IsCapability _ _ _
        capabilities in
    let a = parse_list-All parse_agent IsAgent parse_agent-IsAgent _ _ _ agents in
    let g = parse_list-All parse_item IsItem parse_item-IsItem _ _ _ checklist in
    record {
      stages = s.0;
      capabilities = c.0;
      agents = a.0;
      governance_checklist = g.0;
      has_stages = s.1;
      has_capabilities = c.1;
      has_agents = a.1;
      has_checklist = g.1;
      notes = string_list-IsTexts _ _ notes;
      published_at = filled_text-HasText _;
      published_by = trimmed_text-HasCleanText _;
      updated_at = text_or-filled _ now (filled_text-HasText _) k;
    }

pub unless_errors-eq :
    (r : Report PlatformConfig) (c : PlatformConfig)
    → unless_errors r ≡ accepted c
    → (r.0 ≡ c) × (r.1 ≡ [])
unfolding unless_errors
unless_errors-eq (config, []) c h = (accepted-injective h, refl)
unless_errors-eq (config, e ∷ es) c h = cc

-- A configuration that the checks accept is valid, if the time of the call is not blank.
pub validate_platform_config-IsConfig :
    (now : Str) (v : Json) (c : PlatformConfig)
    → is_empty (trim now) ≡ false
    → validate_platform_config now v ≡ accepted c
    → IsConfig c
unfolding validate_platform_config
validate_platform_config-IsConfig now (obj input) c k h =
    let (same, clean) = unless_errors-eq (parse_config now input) c h in
    rw same at (parse_config-IsConfig now input k clean)
validate_platform_config-IsConfig now _ c k h = cc
