-- ===== src/Admin/Audited.antt =====
-- app/api/admin/users/[id] and its unlock, reset-mfa and revoke-sessions: what each answer leaves in
-- the tables and in the audit trail.
use frankai_online.Common.{Str, js, Bool, true, false, [], ◌∷◌, ◌++◌, ◌≡◌, ◌⊎◌, some, error_reply}
use frankai_online.Auth.Accounts.{AuditEvent}
use frankai_online.Admin.Membership.{AdminTables}
use frankai_online.Admin.Users.{UserCall, Answer, failed, thrown_out}

abbrev is_failure : Answer → Bool
is_failure (failed r) = true
is_failure thrown_out = true
is_failure _ = false

-- Every table but the audit trail is as it was.
pub record IsKept (db db' : AdminTables) : Type 0 where
  pub users_kept : db'.users ≡ db.users
  pub sessions_kept : db'.sessions ≡ db.sessions
  pub recovery_codes_kept : db'.recovery_codes ≡ db.recovery_codes
  pub mfa_secrets_kept : db'.mfa_secrets ≡ db.mfa_secrets

-- A row of the audit trail: the caller acted on the account.
abbrev pub event_of : UserCall → Str → Str → AuditEvent
event_of call action result = record {
  action = action;
  result = result;
  actor_user_id = some call.actor;
  target = some call.id;
}

-- The refusal to take the last administrator away.
abbrev pub final_refusal : Answer
final_refusal = failed (error_reply 409 (js "FINAL_ADMINISTRATOR_REQUIRED"))

-- A failure keeps the tables, and the audit trail too unless it is the refusal to take the last
-- administrator away, which is recorded. Any other answer has left one row that names the action.
abbrev pub IsAudited : UserCall → AdminTables → Str → AdminTables × Answer → Type 0
IsAudited call db action (db', a) =
    ((is_failure a ≡ true)
      × IsKept db db'
      × ((db'.audit_events ≡ db.audit_events)
          ⊎ ((a ≡ final_refusal)
              × (db'.audit_events
                  ≡ db.audit_events
                    ++ event_of call (js "admin_final_admin_action_rejected") (js "rejected")
                      ∷ []))))
    ⊎ ((is_failure a ≡ false)
        × (db'.audit_events ≡ db.audit_events ++ event_of call action (js "success") ∷ []))

-- The tables that a transaction commits have that row.
abbrev HasRow : UserCall → AdminTables → Str → AdminTables → Type 0
HasRow call db action db' =
    db'.audit_events ≡ db.audit_events ++ event_of call action (js "success") ∷ []
