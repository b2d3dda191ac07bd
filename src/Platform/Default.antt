-- ===== src/Platform/Default.antt =====
-- lib/platform/config.ts: the configuration that stands in for a missing file.
use frankai_online.Common.{Str, js, List, [], ◌∷◌, true, none}
use frankai_online.Platform.Config.{
  PlatformStageStatus, planned, sandbox, pilot, prepare, execute_with_approval,
  GovernanceChecklistStatus, not_started, moderate, high, critical, PlatformStage,
  PlatformCapability, PlatformAgent, GovernanceChecklistItem, PlatformConfig,
}

abbrev pub default_stages : List PlatformStage
default_stages =
    record {
      id = js "foundation-governance";
      title = js "Foundation & Governance";
      objective =
          js
            "Lock scope boundaries, approval policy, memory rules and audit controls before runtime expansion.";
      status = PlatformStageStatus.in_progress;
      owner = js "FrankAI Platform Owner";
      target_window = js "Current release";
      deliverables =
          js "Mission boundaries and blocked-action classes"
          ∷ js "Approval policy for outbound and irreversible work"
          ∷ js "Audit event schema for prompts, tool calls and outcomes"
          ∷ js "Readiness checklist and go/no-go criteria for pilot transition"
          ∷ [];
    }
    ∷ record {
      id = js "runtime-control-plane";
      title = js "Runtime Control Plane";
      objective =
          js
            "Introduce the management surface for agent registry, run-state tracking and operator review.";
      status = planned;
      owner = js "Engineering";
      target_window = js "Next release";
      deliverables =
          js "Agent registry with service responsibilities"
          ∷ js "Run-state tracking for staged, sandbox, pilot, active and blocked states"
          ∷ js "Execution limits and timeout guardrails"
          ∷ js "Incident fallback and manual override path"
          ∷ [];
    }
    ∷ record {
      id = js "workflow-pilots";
      title = js "Workflow Pilots";
      objective =
          js
            "Launch controlled pilot workflows tied to measurable operating outcomes before broad rollout.";
      status = planned;
      owner = js "Ops + Delivery";
      target_window = js "After governance approval";
      deliverables =
          js "Lead triage pilot"
          ∷ js "ServiceDesk dispatch pilot"
          ∷ js "Document intake and classification pilot"
          ∷ js "Pilot scorecard with cycle-time and quality metrics"
          ∷ [];
    }
    ∷ []

abbrev pub default_capabilities : List PlatformCapability
default_capabilities =
    record {
      id = js "agent-orchestration";
      name = js "Agent Orchestration";
      description =
          js
            "Coordinate specialised agents with controlled task routing and clear ownership boundaries.";
      current_state = js "Platform direction and route structure are published.";
      next_step =
          js "Expose agent registry and run-state controls in the FrankAI operator console.";
    }
    ∷ record {
      id = js "compliance-observability";
      name = js "Compliance & Observability";
      description = js "Track what agents do, why they did it and what evidence exists for review.";
      current_state = js "Memory ingest and search are live; action audit is not yet unified.";
      next_step = js "Attach run, approval and action receipt records to platform memory.";
    }
    ∷ record {
      id = js "human-in-the-loop";
      name = js "Human-in-the-Loop Controls";
      description =
          js "Require explicit review for sensitive actions and confidence-sensitive decisions.";
      current_state =
          js "Operational rule exists; platform-level approval gate is now being encoded.";
      next_step =
          js "Require approval records before external communication or irreversible changes.";
    }
    ∷ record {
      id = js "knowledge-and-context";
      name = js "Knowledge & Context Layer";
      description = js "Provide agents with reliable context from approved internal sources.";
      current_state = js "Authenticated memory ingest/search is live on frankai.online.";
      next_step = js "Define source hierarchy and retrieval rules per agent role.";
    }
    ∷ []

abbrev pub default_agents : List PlatformAgent
default_agents =
    record {
      id = js "frank-main";
      name = js "Frank Main";
      role = js "Primary operator and strategic assistant";
      runtime_state = pilot;
      authority_level = prepare;
      allowed_actions =
          js "Context gathering"
          ∷ js "Drafting"
          ∷ js "Local code changes"
          ∷ js "Readiness checks"
          ∷ [];
      blocked_actions =
          js "External sends without approval"
          ∷ js "Credential exposure"
          ∷ js "Destructive actions"
          ∷ [];
      owner = js "Ray";
    }
    ∷ record {
      id = js "servicedesk-dispatch";
      name = js "ServiceDesk Dispatch";
      role = js "Controlled service workflow triage and dispatch support";
      runtime_state = sandbox;
      authority_level = execute_with_approval;
      allowed_actions =
          js "Fixture intake" ∷ js "Counterfactual approvals" ∷ js "Action receipts" ∷ [];
      blocked_actions =
          js "Live customer sends" ∷ js "Payment actions" ∷ js "Credential changes" ∷ [];
      owner = js "FrankAI Ops";
    }
    ∷ []

abbrev pub default_governance_checklist : List GovernanceChecklistItem
default_governance_checklist =
    record {
      id = js "gate-production-write";
      phase_id = js "foundation-governance";
      title = js "Production write restriction enforced";
      status = GovernanceChecklistStatus.in_progress;
      owner = js "Systems Admin";
      required_evidence =
          js "Permission matrix"
          ∷ js "Environment separation record"
          ∷ js "Rollback procedure"
          ∷ [];
      risk_level = critical;
      blocks_progression = true;
    }
    ∷ record {
      id = js "gate-outbound-integration";
      phase_id = js "foundation-governance";
      title = js "Outbound integration restriction enforced";
      status = GovernanceChecklistStatus.in_progress;
      owner = js "Platform Owner";
      required_evidence =
          js "Integration owner" ∷ js "Data flow diagram" ∷ js "Approval record" ∷ [];
      risk_level = high;
      blocks_progression = true;
    }
    ∷ record {
      id = js "gate-auditability";
      phase_id = js "runtime-control-plane";
      title = js "Auditability gate enforced for all material agent actions";
      status = not_started;
      owner = js "Engineering";
      required_evidence =
          js "Input/context log schema"
          ∷ js "Approval status field"
          ∷ js "Action receipt field"
          ∷ [];
      risk_level = high;
      blocks_progression = true;
    }
    ∷ record {
      id = js "gate-pilot-scope";
      phase_id = js "workflow-pilots";
      title = js "Pilot scope constrained and approved";
      status = not_started;
      owner = js "Operations";
      required_evidence =
          js "Included workflow list" ∷ js "Excluded workflow list" ∷ js "Success metrics" ∷ [];
      risk_level = moderate;
      blocks_progression = true;
    }
    ∷ []

abbrev pub default_notes : List Str
default_notes =
    js "FrankAI is the product home for the AI-agent platform."
    ∷ js "Capability does not imply permission; every expansion must pass governance controls."
    ∷ js "No autonomous high-impact action should run without an explicit approval workflow."
    ∷ []

abbrev pub default_platform_config : PlatformConfig
default_platform_config = record {
  stages = default_stages;
  capabilities = default_capabilities;
  agents = default_agents;
  governance_checklist = default_governance_checklist;
  notes = default_notes;
  published_at = none;
  published_by = none;
  updated_at = js "1970-01-01T00:00:00.000Z";
}
