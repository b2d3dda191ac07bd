-- ===== src/Admin/Handlers.antt =====
-- app/api/admin/users/[id] and its unlock, reset-mfa and revoke-sessions: the handlers over the
-- transactions.
use frankai_online.Common.{
  Str, js, [], ◌∷◌, ◌++◌, not, if◌then◌else◌, Runtime, Option, none, some, Json, null, obj, Fields,
  end, get, error_reply,
}
use frankai_online.Auth.Accounts.{Role, Status}
use frankai_online.Admin.Membership.{
  AdminTables, Fault, final_administrator, user_not_found, other_fault, Transaction, committed,
  raised, rollback,
}
use frankai_online.Admin.Users.{
  Answer, Requested, UserCall, absent, acknowledged, change_user, changed, delete_user, failed,
  read_role, read_status, reauthenticate, requested, reset_mfa, revoke_sessions, revoked,
  thrown_out, unknown, unlock_user,
}

-- What the `catch` answers, and the row that it writes for a refusal on the last administrator.
unfoldable pub on_fault : UserCall → Str → AdminTables → Fault → AdminTables × Answer
on_fault call message db final_administrator = (
  record db {
    audit_events =
        db.audit_events
        ++ record {
          action = js "admin_final_admin_action_rejected";
          result = js "rejected";
          actor_user_id = some call.actor;
          target = some call.id;
        }
          ∷ [];
  },
  failed (error_reply 409 (js "FINAL_ADMINISTRATOR_REQUIRED")),
)
on_fault call message db user_not_found = (db, failed (error_reply 404 (js "User not found.")))
on_fault call message db other_fault = (db, failed (error_reply 500 message))

unfoldable pub settle :
    {A : Type 0}
    → UserCall
    → Str
    → (A → Answer)
    → AdminTables
    → Transaction A
    → AdminTables × Answer
settle call message answer db (committed a db') = (db', answer a)
settle call message answer db (raised fault left) = on_fault call message (rollback db left) fault

-- The guards that the handlers share.
unfoldable pub guarded : UserCall → AdminTables → AdminTables × Answer → AdminTables × Answer
guarded call db rest = elim call.refused_by_auth [
  | some r ↦ (db, failed r)
  | none ↦
      if not call.csrf_ok
      then (db, failed (error_reply 403 (js "CSRF validation failed")))
      else rest
]

-- A request that names no field, or one with a value that is not allowed, is refused.
unfoldable pub patch_requested :
    UserCall → Requested Role → Requested Status → AdminTables → AdminTables × Answer
patch_requested call unknown status db =
    (db, failed (error_reply 400 (js "Only approved role or status fields may be changed.")))
patch_requested call role unknown db =
    (db, failed (error_reply 400 (js "Only approved role or status fields may be changed.")))
patch_requested call absent absent db =
    (db, failed (error_reply 400 (js "Only approved role or status fields may be changed.")))
patch_requested call role status db =
    settle call (js "Unable to update user.") changed db (change_user call role status db)

unfoldable pub patch_fields : Runtime → UserCall → Fields → AdminTables → AdminTables × Answer
patch_fields rt call fs db =
    patch_requested call (requested rt read_role (get fs (js "role")))
      (requested rt read_status (get fs (js "status"))) db

-- A body that is no JSON counts as `{}`; reading a member of `null` throws.
unfoldable pub patch_body : Runtime → UserCall → Option Json → AdminTables → AdminTables × Answer
patch_body rt call (some null) db = (db, thrown_out)
patch_body rt call (some (obj fs)) db = patch_fields rt call fs db
patch_body rt call _ db = patch_fields rt call end db

unfoldable pub patch_user : Runtime → UserCall → Option Json → AdminTables → AdminTables × Answer
unfolding patch_body patch_fields patch_requested
patch_user rt call body db = guarded call db (patch_body rt call body db)

unfoldable pub delete_account : UserCall → AdminTables → AdminTables × Answer
delete_account call db =
    guarded call db
      (settle call (js "Unable to delete user.") (λ _. acknowledged) db (delete_user call db))

unfoldable pub post_unlock : UserCall → AdminTables → AdminTables × Answer
post_unlock call db =
    guarded call db
      (settle call (js "Unable to unlock user.") (λ _. acknowledged) db (unlock_user call db))

unfoldable pub post_reset_mfa : UserCall → AdminTables → AdminTables × Answer
post_reset_mfa call db =
    guarded call db
      (settle call (js "Unable to reset MFA.") (λ _. reauthenticate) db (reset_mfa call db))

unfoldable pub post_revoke_sessions : UserCall → AdminTables → AdminTables × Answer
post_revoke_sessions call db =
    guarded call db
      (settle call (js "Unable to revoke sessions.") revoked db (revoke_sessions call db))
