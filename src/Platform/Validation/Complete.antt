-- ===== src/Platform/Validation/Complete.antt =====
-- lib/platform/validation.ts on the JSON value of a valid configuration.
use frankai_online.Common.{
  Str, js, [], ◌++◌, ◌≡◌, refl, ◌===◌, Option, none, some, str, obj, get, accepted,
}
use frankai_online.Platform.Config.{
  PlatformStageStatus, planned, stage_status_text, RuntimeState, staged, runtime_state_text,
  AuthorityLevel, observe, authority_text, GovernanceChecklistStatus, not_started,
  checklist_status_text, RiskLevel, low, moderate, risk_text, PlatformStage, PlatformCapability,
  PlatformAgent, GovernanceChecklistItem, PlatformConfig,
}
use frankai_online.Platform.Parse.{spelled}
use frankai_online.Platform.Parse.Laws.{
  required_string_of_IsClean, string_list_of_IsTexts, one_of-spelled, parse_list_of_All,
}
use frankai_online.Platform.Validation.{
  stage_statuses, agent_states, authority_levels, checklist_statuses, risk_levels, parse_stage,
  parse_stages, parse_capability, parse_capabilities, parse_agent, parse_agents, blocks, parse_item,
  parse_checklist, filled_text, trimmed_text, text_or, parse_config, unless_errors,
  validate_platform_config,
}
use frankai_online.Platform.Validation.Encode.{
  stage_json, capability_json, agent_json, item_json, null_or_text, config_fields, IsStage,
  IsCapability, IsAgent, IsItem, HasText, HasCleanText, IsConfig,
}

stage_status_spelled :
    (a : PlatformStageStatus)
    → spelled stage_status_text stage_statuses (some (str (stage_status_text a))) ≡ some a
unfolding spelled ◌===◌
stage_status_spelled planned = refl
stage_status_spelled _ = refl

runtime_state_spelled :
    (a : RuntimeState)
    → spelled runtime_state_text agent_states (some (str (runtime_state_text a))) ≡ some a
unfolding spelled ◌===◌
runtime_state_spelled staged = refl
runtime_state_spelled _ = refl

authority_spelled :
    (a : AuthorityLevel)
    → spelled authority_text authority_levels (some (str (authority_text a))) ≡ some a
unfolding spelled ◌===◌
authority_spelled observe = refl
authority_spelled _ = refl

checklist_status_spelled :
    (a : GovernanceChecklistStatus)
    → spelled checklist_status_text checklist_statuses (some (str (checklist_status_text a)))
      ≡ some a
unfolding spelled ◌===◌
checklist_status_spelled not_started = refl
checklist_status_spelled _ = refl

risk_spelled : (a : RiskLevel) → spelled risk_text risk_levels (some (str (risk_text a))) ≡ some a
unfolding spelled ◌===◌
risk_spelled low = refl
risk_spelled _ = refl

stage_complete :
    (at : Str) (x : PlatformStage) → IsStage x → parse_stage at (stage_json x) ≡ (x, [])
unfolding parse_stage get ◌===◌
stage_complete at x h =
    rw
      (one_of-spelled stage_status_text stage_statuses planned x.status _ (at ++ js ".status")
        (stage_status_spelled x.status))
      (rw (
        required_string_of_IsClean x.id (at ++ js ".id") h.id,
        required_string_of_IsClean x.title (at ++ js ".title") h.title,
        required_string_of_IsClean x.objective (at ++ js ".objective") h.objective,
        required_string_of_IsClean x.owner (at ++ js ".owner") h.owner,
        required_string_of_IsClean x.target_window (at ++ js ".targetWindow") h.target_window,
        string_list_of_IsTexts x.deliverables (at ++ js ".deliverables") h.deliverables,
      ))

capability_complete :
    (at : Str) (x : PlatformCapability)
    → IsCapability x
    → parse_capability at (capability_json x) ≡ (x, [])
unfolding parse_capability get ◌===◌
capability_complete at x h = rw (
  required_string_of_IsClean x.id (at ++ js ".id") h.id,
  required_string_of_IsClean x.name (at ++ js ".name") h.name,
  required_string_of_IsClean x.description (at ++ js ".description") h.description,
  required_string_of_IsClean x.current_state (at ++ js ".currentState") h.current_state,
  required_string_of_IsClean x.next_step (at ++ js ".nextStep") h.next_step,
)

agent_complete :
    (at : Str) (x : PlatformAgent) → IsAgent x → parse_agent at (agent_json x) ≡ (x, [])
unfolding parse_agent get ◌===◌
agent_complete at x h =
    rw
      (one_of-spelled runtime_state_text agent_states staged x.runtime_state _
        (at ++ js ".runtimeState") (runtime_state_spelled x.runtime_state))
      (rw
        (one_of-spelled authority_text authority_levels observe x.authority_level _
          (at ++ js ".authorityLevel") (authority_spelled x.authority_level))
        (rw (
          required_string_of_IsClean x.id (at ++ js ".id") h.id,
          required_string_of_IsClean x.name (at ++ js ".name") h.name,
          required_string_of_IsClean x.role (at ++ js ".role") h.role,
          string_list_of_IsTexts x.allowed_actions (at ++ js ".allowedActions") h.allowed_actions,
          string_list_of_IsTexts x.blocked_actions (at ++ js ".blockedActions") h.blocked_actions,
          required_string_of_IsClean x.owner (at ++ js ".owner") h.owner,
        )))

item_complete :
    (at : Str) (x : GovernanceChecklistItem) → IsItem x → parse_item at (item_json x) ≡ (x, [])
unfolding parse_item blocks get ◌===◌
item_complete at x h =
    rw
      (one_of-spelled checklist_status_text checklist_statuses not_started x.status _
        (at ++ js ".status") (checklist_status_spelled x.status))
      (rw
        (one_of-spelled risk_text risk_levels moderate x.risk_level _ (at ++ js ".riskLevel")
          (risk_spelled x.risk_level))
        (rw (
          required_string_of_IsClean x.id (at ++ js ".id") h.id,
          required_string_of_IsClean x.phase_id (at ++ js ".phaseId") h.phase_id,
          required_string_of_IsClean x.title (at ++ js ".title") h.title,
          required_string_of_IsClean x.owner (at ++ js ".owner") h.owner,
          string_list_of_IsTexts x.required_evidence (at ++ js ".requiredEvidence")
              h.required_evidence,
        )))

pub filled_text-null_or_text :
    (o : Option Str) → HasText o → filled_text (some (null_or_text o)) ≡ o
unfolding filled_text
filled_text-null_or_text none h = refl
filled_text-null_or_text (some s) h = rw h

pub trimmed_text-null_or_text :
    (o : Option Str) → HasCleanText o → trimmed_text (some (null_or_text o)) ≡ o
unfolding trimmed_text
trimmed_text-null_or_text none h = refl
trimmed_text-null_or_text (some s) h = rw h.trimmed (rw h.content)

config_complete :
    (now : Str) (c : PlatformConfig) → IsConfig c → parse_config now (config_fields c) ≡ (c, [])
unfolding parse_config parse_stages parse_capabilities parse_agents parse_checklist text_or get
    ◌===◌
config_complete now c h =
    let updated : filled_text (some (str c.updated_at)) ≡ some c.updated_at =
      filled_text-null_or_text (some c.updated_at) h.updated_at in
    rw (string_list_of_IsTexts c.notes (js "notes") h.notes) (
      rw
        (
          parse_list_of_All parse_stage IsStage stage_json stage_complete c.stages _ _ h.stages
              h.has_stages,
          parse_list_of_All parse_capability IsCapability capability_json capability_complete
              c.capabilities _ _ h.capabilities h.has_capabilities,
          parse_list_of_All parse_agent IsAgent agent_json agent_complete c.agents _ _ h.agents
              h.has_agents,
          parse_list_of_All parse_item IsItem item_json item_complete c.governance_checklist _ _
              h.governance_checklist h.has_checklist,
        )
        (rw (
          filled_text-null_or_text c.published_at h.published_at,
          trimmed_text-null_or_text c.published_by h.published_by,
          updated,
        )))

-- The JSON value of a valid configuration is accepted, at any time, as that very configuration.
pub validate_platform_config-config_fields :
    (now : Str) (c : PlatformConfig)
    → IsConfig c
    → validate_platform_config now (obj (config_fields c)) ≡ accepted c
unfolding validate_platform_config unless_errors
validate_platform_config-config_fields now c h = rw (config_complete now c h)
