-- ===== src/Admin/Registry.antt =====
-- lib/auth/audit-registry.ts: the events that may be written to the audit trail.
use frankai_online.Common.{
  Str, js, List, [], ◌∷◌, ◌++◌, map, Bool, if◌then◌else◌, ◌===◌, Option, none, some,
}

pub data Need : Type 0 where
  required optional : Need

pub data Severity : Type 0 where
  info warning high : Severity

pub data Retention : Type 0 where
  security operational : Retention

-- `requestId` is `required` in every entry.
pub record AuditRegistryEntry : Type 0 where
  pub id : Str
  pub aliases : List Str
  pub source_action : Str
  pub success_failure : List Str
  pub actor : Need
  pub target : Need
  pub severity : Severity
  pub retention : Retention

abbrev retention_of : Severity → Retention
retention_of info = operational
retention_of _ = security

abbrev pub entry : Str → Str → List Str → Need → Need → Severity → AuditRegistryEntry
entry id source_action aliases actor target severity = record {
  id = id;
  aliases = aliases;
  source_action = source_action;
  success_failure = js "success" ∷ js "failure" ∷ js "rejected" ∷ [];
  actor = actor;
  target = target;
  severity = severity;
  retention = retention_of severity;
}

abbrev pub audit_event_registry : List AuditRegistryEntry
audit_event_registry =
    entry (js "AUTH_LOGIN_SUCCEEDED") (js "login") [] optional optional info
    ∷ entry (js "AUTH_LOGIN_FAILED") (js "login") [] optional optional warning
    ∷ entry (js "AUTH_ACCOUNT_LOCKED") (js "account_locked") [] optional required warning
    ∷ entry (js "AUTH_ACCOUNT_UNLOCKED") (js "account_unlocked") [] required required info
    ∷ entry (js "AUTH_REFRESH_ROTATED") (js "refresh_rotated") [] required required info
    ∷ entry (js "AUTH_REFRESH_REPLAY_REJECTED") (js "refresh_replay_rejected")
        (js "refresh_reuse_or_invalid" ∷ js "refresh_concurrent_rejected" ∷ []) optional required
        high
    ∷ entry (js "AUTH_LOGOUT") (js "logout") [] required optional info
    ∷ entry (js "AUTH_LOGOUT_ALL") (js "logout_all") [] required optional info
    ∷ entry (js "AUTH_SESSION_REVOKED") (js "session_revoked") [] required required info
    ∷ entry (js "INVITATION_CREATED") (js "invitation_created") (js "admin_invitation_created" ∷ [])
        required required info
    ∷ entry (js "INVITATION_RESENT") (js "invitation_resent") [] required required info
    ∷ entry (js "INVITATION_REVOKED") (js "invitation_revoked") [] required required info
    ∷ entry (js "INVITATION_REDEEMED") (js "invitation_redeemed") [] required required info
    ∷ entry (js "INVITATION_REDEMPTION_REJECTED") (js "invitation_redemption_rejected") [] optional
        optional warning
    ∷ entry (js "EMAIL_VERIFICATION_ISSUED") (js "email_verification_issued") [] required required
        info
    ∷ entry (js "EMAIL_VERIFICATION_RESENT") (js "email_verification_resent") [] required required
        info
    ∷ entry (js "EMAIL_VERIFICATION_COMPLETED") (js "email_verified") [] required required info
    ∷ entry (js "EMAIL_VERIFICATION_REJECTED") (js "email_verification_rejected") [] optional
        optional warning
    ∷ entry (js "PASSWORD_RESET_REQUESTED") (js "password_reset_requested") [] optional required
        info
    ∷ entry (js "PASSWORD_RESET_COMPLETED") (js "password_reset_completed") [] required required
        info
    ∷ entry (js "PASSWORD_RESET_REJECTED") (js "password_reset_rejected") [] optional optional
        warning
    ∷ entry (js "MFA_SETUP_STARTED") (js "admin_mfa_setup") [] required required info
    ∷ entry (js "MFA_ENROLLMENT_COMPLETED") (js "admin_mfa_enrolled") [] required required info
    ∷ entry (js "MFA_CHALLENGE_FAILED") (js "mfa_challenge") [] optional optional warning
    ∷ entry (js "MFA_CHALLENGE_SUCCEEDED") (js "admin_mfa_challenge") [] required required info
    ∷ entry (js "MFA_RECOVERY_USED") (js "admin_mfa_recovery_used") [] required required info
    ∷ entry (js "MFA_RECOVERY_REJECTED") (js "mfa_recovery_rejected") [] optional optional warning
    ∷ entry (js "MFA_RECOVERY_CODES_REGENERATED") (js "mfa_recovery_codes_regenerated") [] required
        required info
    ∷ entry (js "MFA_RESET") (js "admin_mfa_reset") [] required required high
    ∷ entry (js "ADMIN_REAUTH_FAILED") (js "admin_reauth") [] required optional warning
    ∷ entry (js "ADMIN_REAUTH_SUCCEEDED") (js "admin_reauth") [] required optional info
    ∷ entry (js "ADMIN_ROLE_CHANGED") (js "admin_user_changed") [] required required high
    ∷ entry (js "ADMIN_STATUS_CHANGED") (js "admin_user_changed") [] required required high
    ∷ entry (js "ADMIN_FINAL_ADMIN_ACTION_REJECTED") (js "admin_final_admin_action_rejected") []
        required required high
    ∷ entry (js "ADMIN_SESSIONS_REVOKED") (js "admin_sessions_revoked") (js "admin_revocation" ∷ [])
        required required high
    ∷ entry (js "EMAIL_DELIVERY_SUCCEEDED") (js "email_delivery_succeeded") [] optional required
        info
    ∷ entry (js "EMAIL_DELIVERY_FAILED") (js "email_delivery_failed") [] optional required warning
    ∷ entry (js "RATE_LIMIT_REJECTED") (js "rate_limit_rejected") [] optional optional warning
    ∷ entry (js "STATIC_AUTH_REJECTED") (js "static_auth_rejected") [] optional optional warning
    ∷ entry (js "VOICE_DISABLED_REQUEST_REJECTED") (js "voice_disabled_request_rejected") []
        optional optional warning
    ∷ entry (js "SIGNUP_COMPLETED") (js "signup") [] optional required info
    ∷ entry (js "ADMIN_USER_DELETED") (js "admin_user_deleted") [] required required high
    ∷ entry (js "ADMIN_USER_UNLOCKED") (js "admin_user_unlocked") [] required required info
    ∷ entry (js "ADMIN_BOOTSTRAP") (js "admin_bootstrap") [] optional required high
    ∷ entry (js "VOICE_SESSION") (js "voice_session") [] optional optional warning
    ∷ []

abbrev renamed : AuditRegistryEntry → Str → AuditRegistryEntry
renamed e alias = record e { source_action = alias }

-- The entries under their action and then under each alias.
unfoldable pub by_action : List AuditRegistryEntry → List AuditRegistryEntry
by_action [] = []
by_action (e ∷ es) = e ∷ map (renamed e) e.aliases ++ by_action es

or_found : Option AuditRegistryEntry → AuditRegistryEntry → Bool → Option AuditRegistryEntry
or_found (some later) e same = some later
or_found none e same = if same then some e else none

-- The map keeps the last entry of an action.
unfoldable pub last_for : Str → List AuditRegistryEntry → Option AuditRegistryEntry
unfolding or_found
last_for action [] = none
last_for action (e ∷ es) = or_found (last_for action es) e (e.source_action === action)

unfoldable pub audit_definition : Str → Option AuditRegistryEntry
audit_definition action = last_for action (by_action audit_event_registry)
