-- ===== src/Platform/Validation.antt =====
-- lib/platform/validation.ts: the checks of the sections and of the whole configuration.
pub mod Encode
pub mod Sound
pub mod Complete
use frankai_online.Common.{
  Str, js, List, [], ◌∷◌, ◌++◌, Bool, true, if◌then◌else◌, is_empty, trim, join, Option, none, some,
  Json, bool, str, obj, Fields, get, Checked, accepted, refused,
}
use frankai_online.Platform.Report.{Report, ◌>>=◌, pure}
use frankai_online.Platform.Config.{
  PlatformStageStatus, planned, in_progress, ready, stage_status_text, RuntimeState, staged,
  sandbox, pilot, active, runtime_state_text, AuthorityLevel, observe, prepare,
  execute_with_approval, routine_autonomy, authority_text, GovernanceChecklistStatus, not_started,
  ready_for_review, approved, deferred, checklist_status_text, RiskLevel, low, moderate, high,
  critical, risk_text, PlatformStage, PlatformCapability, PlatformAgent, GovernanceChecklistItem,
  PlatformConfig,
}
use frankai_online.Platform.Parse.{required_string, string_list, one_of, parse_list}

abbrev pub stage_statuses : List PlatformStageStatus
stage_statuses = planned ∷ PlatformStageStatus.in_progress ∷ ready ∷ []

abbrev pub agent_states : List RuntimeState
agent_states = staged ∷ sandbox ∷ pilot ∷ active ∷ RuntimeState.blocked ∷ []

abbrev pub authority_levels : List AuthorityLevel
authority_levels = observe ∷ prepare ∷ execute_with_approval ∷ routine_autonomy ∷ []

abbrev pub checklist_statuses : List GovernanceChecklistStatus
checklist_statuses =
    not_started ∷ GovernanceChecklistStatus.in_progress ∷ GovernanceChecklistStatus.blocked
    ∷ ready_for_review ∷ approved ∷ deferred ∷ []

abbrev pub risk_levels : List RiskLevel
risk_levels = low ∷ moderate ∷ high ∷ critical ∷ []

unfoldable pub parse_stage : Str → Fields → Report PlatformStage
parse_stage at stage = do
  status ←
      one_of stage_status_text stage_statuses planned (get stage (js "status")) (at ++ js ".status")
  id ← required_string (get stage (js "id")) (at ++ js ".id")
  title ← required_string (get stage (js "title")) (at ++ js ".title")
  objective ← required_string (get stage (js "objective")) (at ++ js ".objective")
  owner ← required_string (get stage (js "owner")) (at ++ js ".owner")
  target_window ← required_string (get stage (js "targetWindow")) (at ++ js ".targetWindow")
  deliverables ← string_list (get stage (js "deliverables")) (at ++ js ".deliverables")
  pure (record {
    id = id;
    title = title;
    objective = objective;
    status = status;
    owner = owner;
    target_window = target_window;
    deliverables = deliverables;
  })

unfoldable pub parse_stages : Option Json → Report (List PlatformStage)
parse_stages v =
    parse_list parse_stage v (js "stages") (js "stages must include at least one stage")

unfoldable pub parse_capability : Str → Fields → Report PlatformCapability
parse_capability at capability = do
  id ← required_string (get capability (js "id")) (at ++ js ".id")
  name ← required_string (get capability (js "name")) (at ++ js ".name")
  description ← required_string (get capability (js "description")) (at ++ js ".description")
  current_state ← required_string (get capability (js "currentState")) (at ++ js ".currentState")
  next_step ← required_string (get capability (js "nextStep")) (at ++ js ".nextStep")
  pure (record {
    id = id;
    name = name;
    description = description;
    current_state = current_state;
    next_step = next_step;
  })

unfoldable pub parse_capabilities : Option Json → Report (List PlatformCapability)
parse_capabilities v =
    parse_list parse_capability v (js "capabilities")
      (js "capabilities must include at least one capability")

unfoldable pub parse_agent : Str → Fields → Report PlatformAgent
parse_agent at agent = do
  runtime_state ←
      one_of runtime_state_text agent_states staged (get agent (js "runtimeState"))
        (at ++ js ".runtimeState")
  authority_level ←
      one_of authority_text authority_levels observe (get agent (js "authorityLevel"))
        (at ++ js ".authorityLevel")
  id ← required_string (get agent (js "id")) (at ++ js ".id")
  name ← required_string (get agent (js "name")) (at ++ js ".name")
  role ← required_string (get agent (js "role")) (at ++ js ".role")
  allowed_actions ← string_list (get agent (js "allowedActions")) (at ++ js ".allowedActions")
  blocked_actions ← string_list (get agent (js "blockedActions")) (at ++ js ".blockedActions")
  owner ← required_string (get agent (js "owner")) (at ++ js ".owner")
  pure (record {
    id = id;
    name = name;
    role = role;
    runtime_state = runtime_state;
    authority_level = authority_level;
    allowed_actions = allowed_actions;
    blocked_actions = blocked_actions;
    owner = owner;
  })

unfoldable pub parse_agents : Option Json → Report (List PlatformAgent)
parse_agents v =
    parse_list parse_agent v (js "agents") (js "agents must include at least one agent")

-- A value that is no Boolean is reported, and stands for `true`.
unfoldable pub blocks : Option Json → Str → Report Bool
blocks (some (bool b)) name = (b, [])
blocks _ name = (true, (name ++ js " must be boolean") ∷ [])

unfoldable pub parse_item : Str → Fields → Report GovernanceChecklistItem
parse_item at item = do
  status ←
      one_of checklist_status_text checklist_statuses not_started (get item (js "status"))
        (at ++ js ".status")
  risk_level ←
      one_of risk_text risk_levels moderate (get item (js "riskLevel")) (at ++ js ".riskLevel")
  blocks_progression ← blocks (get item (js "blocksProgression")) (at ++ js ".blocksProgression")
  id ← required_string (get item (js "id")) (at ++ js ".id")
  phase_id ← required_string (get item (js "phaseId")) (at ++ js ".phaseId")
  title ← required_string (get item (js "title")) (at ++ js ".title")
  owner ← required_string (get item (js "owner")) (at ++ js ".owner")
  required_evidence ← string_list (get item (js "requiredEvidence")) (at ++ js ".requiredEvidence")
  pure (record {
    id = id;
    phase_id = phase_id;
    title = title;
    status = status;
    owner = owner;
    required_evidence = required_evidence;
    risk_level = risk_level;
    blocks_progression = blocks_progression;
  })

unfoldable pub parse_checklist : Option Json → Report (List GovernanceChecklistItem)
parse_checklist v =
    parse_list parse_item v (js "governanceChecklist")
      (js "governanceChecklist must include at least one item")

-- A text with content as it stands, or nothing.
unfoldable pub filled_text : Option Json → Option Str
filled_text (some (str s)) = if is_empty (trim s) then none else some s
filled_text _ = none

unfoldable pub trimmed_text : Option Json → Option Str
trimmed_text (some (str s)) = if is_empty (trim s) then none else some (trim s)
trimmed_text _ = none

unfoldable pub text_or : Option Str → Str → Str
text_or none d = d
text_or (some s) d = s

-- The configuration that the checks put together, with all errors; `now` is the time of the call.
unfoldable pub parse_config : Str → Fields → Report PlatformConfig
parse_config now input = do
  notes ← string_list (get input (js "notes")) (js "notes")
  stages ← parse_stages (get input (js "stages"))
  capabilities ← parse_capabilities (get input (js "capabilities"))
  agents ← parse_agents (get input (js "agents"))
  governance_checklist ← parse_checklist (get input (js "governanceChecklist"))
  pure (record {
    stages = stages;
    capabilities = capabilities;
    agents = agents;
    governance_checklist = governance_checklist;
    notes = notes;
    published_at = filled_text (get input (js "publishedAt"));
    published_by = trimmed_text (get input (js "publishedBy"));
    updated_at = text_or (filled_text (get input (js "updatedAt"))) now;
  })

-- Any error makes the call throw a `PlatformValidationError` with all of them.
unfoldable pub unless_errors : Report PlatformConfig → Checked PlatformConfig
unless_errors (config, []) = accepted config
unless_errors (config, e ∷ es) = refused (join (js "; ") (e ∷ es))

unfoldable pub validate_platform_config : Str → Json → Checked PlatformConfig
validate_platform_config now (obj input) = unless_errors (parse_config now input)
validate_platform_config now _ = refused (js "Platform config must be an object")
