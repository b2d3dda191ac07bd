-- ===== src/Platform/Validation/Encode.antt =====
-- A configuration as the JSON value that its file holds, and what makes one valid.
use frankai_online.Common.{
  Str, js, List, [], ◌∷◌, map, false, ◌≡◌, is_empty, trim, IsClean, All, Option, none, some, Json,
  null, bool, str, arr, obj, Fields, of_items, of_fields,
}
use frankai_online.Platform.Config.{
  stage_status_text, runtime_state_text, authority_text, checklist_status_text, risk_text,
  PlatformStage, PlatformCapability, PlatformAgent, GovernanceChecklistItem, PlatformConfig,
}
use frankai_online.Platform.Parse.Laws.{IsTexts, texts}

abbrev pub stage_json : PlatformStage → Fields
stage_json x = of_fields (
    (js "id", str x.id)
    ∷ (js "title", str x.title)
    ∷ (js "objective", str x.objective)
    ∷ (js "status", str (stage_status_text x.status))
    ∷ (js "owner", str x.owner)
    ∷ (js "targetWindow", str x.target_window)
    ∷ (js "deliverables", texts x.deliverables)
    ∷ [])

abbrev pub capability_json : PlatformCapability → Fields
capability_json x = of_fields (
    (js "id", str x.id)
    ∷ (js "name", str x.name)
    ∷ (js "description", str x.description)
    ∷ (js "currentState", str x.current_state)
    ∷ (js "nextStep", str x.next_step)
    ∷ [])

abbrev pub agent_json : PlatformAgent → Fields
agent_json x = of_fields (
    (js "id", str x.id)
    ∷ (js "name", str x.name)
    ∷ (js "role", str x.role)
    ∷ (js "runtimeState", str (runtime_state_text x.runtime_state))
    ∷ (js "authorityLevel", str (authority_text x.authority_level))
    ∷ (js "allowedActions", texts x.allowed_actions)
    ∷ (js "blockedActions", texts x.blocked_actions)
    ∷ (js "owner", str x.owner)
    ∷ [])

abbrev pub item_json : GovernanceChecklistItem → Fields
item_json x = of_fields (
    (js "id", str x.id)
    ∷ (js "phaseId", str x.phase_id)
    ∷ (js "title", str x.title)
    ∷ (js "status", str (checklist_status_text x.status))
    ∷ (js "owner", str x.owner)
    ∷ (js "requiredEvidence", texts x.required_evidence)
    ∷ (js "riskLevel", str (risk_text x.risk_level))
    ∷ (js "blocksProgression", bool x.blocks_progression)
    ∷ [])

abbrev pub list_json : {A : Type 0} → (A → Fields) → List A → Json
list_json encode xs = arr (of_items (map (λ x. obj (encode x)) xs))

abbrev pub null_or_text : Option Str → Json
null_or_text none = null
null_or_text (some s) = str s

-- The fields of a configuration, in the order in which `validatePlatformConfig` puts them.
abbrev pub config_fields : PlatformConfig → Fields
config_fields c = of_fields (
    (js "stages", list_json stage_json c.stages)
    ∷ (js "capabilities", list_json capability_json c.capabilities)
    ∷ (js "agents", list_json agent_json c.agents)
    ∷ (js "governanceChecklist", list_json item_json c.governance_checklist)
    ∷ (js "notes", texts c.notes)
    ∷ (js "publishedAt", null_or_text c.published_at)
    ∷ (js "publishedBy", null_or_text c.published_by)
    ∷ (js "updatedAt", str c.updated_at)
    ∷ [])

pub record IsStage (x : PlatformStage) : Type 0 where
  pub id : IsClean x.id
  pub title : IsClean x.title
  pub objective : IsClean x.objective
  pub owner : IsClean x.owner
  pub target_window : IsClean x.target_window
  pub deliverables : IsTexts x.deliverables

pub record IsCapability (x : PlatformCapability) : Type 0 where
  pub id : IsClean x.id
  pub name : IsClean x.name
  pub description : IsClean x.description
  pub current_state : IsClean x.current_state
  pub next_step : IsClean x.next_step

pub record IsAgent (x : PlatformAgent) : Type 0 where
  pub id : IsClean x.id
  pub name : IsClean x.name
  pub role : IsClean x.role
  pub allowed_actions : IsTexts x.allowed_actions
  pub blocked_actions : IsTexts x.blocked_actions
  pub owner : IsClean x.owner

pub record IsItem (x : GovernanceChecklistItem) : Type 0 where
  pub id : IsClean x.id
  pub phase_id : IsClean x.phase_id
  pub title : IsClean x.title
  pub owner : IsClean x.owner
  pub required_evidence : IsTexts x.required_evidence

abbrev pub HasText : Option Str → Type 0
HasText none = Unit
HasText (some s) = is_empty (trim s) ≡ false

abbrev pub HasCleanText : Option Str → Type 0
HasCleanText none = Unit
HasCleanText (some s) = IsClean s

-- A valid configuration: no section is empty, and every required text is trimmed and has content.
pub record IsConfig (c : PlatformConfig) : Type 0 where
  pub stages : All IsStage c.stages
  pub capabilities : All IsCapability c.capabilities
  pub agents : All IsAgent c.agents
  pub governance_checklist : All IsItem c.governance_checklist
  pub has_stages : is_empty c.stages ≡ false
  pub has_capabilities : is_empty c.capabilities ≡ false
  pub has_agents : is_empty c.agents ≡ false
  pub has_checklist : is_empty c.governance_checklist ≡ false
  pub notes : IsTexts c.notes
  pub published_at : HasText c.published_at
  pub published_by : HasCleanText c.published_by
  pub updated_at : is_empty (trim c.updated_at) ≡ false
