-- ===== src/Platform/Config.antt =====
-- lib/platform/config.ts: the types of the configuration, with the texts of their literals.
use frankai_online.Common.{Str, js, List, Bool, Option}

pub data PlatformStageStatus : Type 0 where
  planned in_progress ready : PlatformStageStatus

abbrev pub stage_status_text : PlatformStageStatus → Str
stage_status_text planned = js "planned"
stage_status_text in_progress = js "in-progress"
stage_status_text ready = js "ready"

pub data RuntimeState : Type 0 where
  staged sandbox pilot active blocked : RuntimeState

abbrev pub runtime_state_text : RuntimeState → Str
runtime_state_text staged = js "staged"
runtime_state_text sandbox = js "sandbox"
runtime_state_text pilot = js "pilot"
runtime_state_text active = js "active"
runtime_state_text blocked = js "blocked"

pub data AuthorityLevel : Type 0 where
  observe prepare execute_with_approval routine_autonomy : AuthorityLevel

abbrev pub authority_text : AuthorityLevel → Str
authority_text observe = js "observe"
authority_text prepare = js "prepare"
authority_text execute_with_approval = js "execute_with_approval"
authority_text routine_autonomy = js "routine_autonomy"

pub data GovernanceChecklistStatus : Type 0 where
  not_started in_progress blocked ready_for_review approved deferred : GovernanceChecklistStatus

abbrev pub checklist_status_text : GovernanceChecklistStatus → Str
checklist_status_text not_started = js "not_started"
checklist_status_text in_progress = js "in_progress"
checklist_status_text blocked = js "blocked"
checklist_status_text ready_for_review = js "ready_for_review"
checklist_status_text approved = js "approved"
checklist_status_text deferred = js "deferred"

pub data RiskLevel : Type 0 where
  low moderate high critical : RiskLevel

abbrev pub risk_text : RiskLevel → Str
risk_text low = js "low"
risk_text moderate = js "moderate"
risk_text high = js "high"
risk_text critical = js "critical"

pub record PlatformStage : Type 0 where
  pub id : Str
  pub title : Str
  pub objective : Str
  pub status : PlatformStageStatus
  pub owner : Str
  pub target_window : Str
  pub deliverables : List Str

pub record PlatformCapability : Type 0 where
  pub id : Str
  pub name : Str
  pub description : Str
  pub current_state : Str
  pub next_step : Str

pub record PlatformAgent : Type 0 where
  pub id : Str
  pub name : Str
  pub role : Str
  pub runtime_state : RuntimeState
  pub authority_level : AuthorityLevel
  pub allowed_actions : List Str
  pub blocked_actions : List Str
  pub owner : Str

pub record GovernanceChecklistItem : Type 0 where
  pub id : Str
  pub phase_id : Str
  pub title : Str
  pub status : GovernanceChecklistStatus
  pub owner : Str
  pub required_evidence : List Str
  pub risk_level : RiskLevel
  pub blocks_progression : Bool

pub record PlatformConfig : Type 0 where
  pub stages : List PlatformStage
  pub capabilities : List PlatformCapability
  pub agents : List PlatformAgent
  pub governance_checklist : List GovernanceChecklistItem
  pub notes : List Str
  pub published_at : Option Str
  pub published_by : Option Str
  pub updated_at : Str
