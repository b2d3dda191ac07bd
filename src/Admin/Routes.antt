-- ===== src/Admin/Routes.antt =====
-- app/api/admin/users/[id] and its unlock, reset-mfa and revoke-sessions: the requests that the
-- handlers take.
use frankai_online.Common.{
  ℕ, Str, js, not, inl, inr, Runtime, Option-cases, if_intro, Option, none, some, Json, null, bool,
  num, str, arr, obj, Fields, end, get, Reply,
}
use frankai_online.Auth.Accounts.{Role, Status}
use frankai_online.Admin.Membership.{
  AdminTables, final_administrator, user_not_found, other_fault, Transaction, committed, raised,
  rollback, recoverable_administrator_count,
}
use frankai_online.Admin.Users.{
  UserCall, Requested, absent, asked, unknown, Answer, changed, acknowledged, reauthenticate,
  revoked, failed, thrown_out, read_role, read_status, requested, change_user, delete_user,
  unlock_user, reset_mfa, revoke_sessions,
}
use frankai_online.Admin.Handlers.{
  on_fault, settle, guarded, patch_requested, patch_fields, patch_body, patch_user, delete_account,
  post_unlock, post_reset_mfa, post_revoke_sessions,
}
use frankai_online.Admin.Recoverable.{IsGoverned, Commits}
use frankai_online.Admin.Governed.{
  change_user-IsGoverned, delete_user-IsGoverned, unlock_user-IsGoverned, reset_mfa-IsGoverned,
  revoke_sessions-IsGoverned,
}

-- The requests that the routes of an account take.
pub data AccountRequest : Type 0 where
  patch : Option Json → AccountRequest
  delete unlock reset revoke : AccountRequest

unfoldable pub handle : Runtime → UserCall → AccountRequest → AdminTables → AdminTables × Answer
handle rt call (patch body) db = patch_user rt call body db
handle rt call delete db = delete_account call db
handle rt call unlock db = post_unlock call db
handle rt call reset db = post_reset_mfa call db
handle rt call revoke db = post_revoke_sessions call db

-- The action under which the audit trail knows a request.
abbrev pub action_of : AccountRequest → Str
action_of (patch body) = js "admin_user_changed"
action_of delete = js "admin_user_deleted"
action_of unlock = js "admin_user_unlocked"
action_of reset = js "admin_mfa_reset"
action_of revoke = js "admin_sessions_revoked"

-- What a property of the handlers' results has to hold of: refusals, and settled transactions.
pub record Covers (Q : Str → AdminTables × Answer → Type 0) (call : UserCall) (db : AdminTables)
    : Type 0 where
  pub refusal : (action : Str) (r : Reply) → Q action (db, failed r)
  pub exception : (action : Str) → Q action (db, thrown_out)
  pub change :
      (role : Requested Role) (status : Requested Status)
      → Q
          (js "admin_user_changed")
          (settle call (js "Unable to update user.") changed db (change_user call role status db))
  pub deletion :
      Q
        (js "admin_user_deleted")
        (settle call (js "Unable to delete user.") (λ _. acknowledged) db (delete_user call db))
  pub unlocking :
      Q
        (js "admin_user_unlocked")
        (settle call (js "Unable to unlock user.") (λ _. acknowledged) db (unlock_user call db))
  pub mfa_reset :
      Q
        (js "admin_mfa_reset")
        (settle call (js "Unable to reset MFA.") (λ _. reauthenticate) db (reset_mfa call db))
  pub revocation :
      Q
        (js "admin_sessions_revoked")
        (settle call (js "Unable to revoke sessions.") revoked db (revoke_sessions call db))

module _ (Q : Str → AdminTables × Answer → Type 0) (rt : Runtime) (call : UserCall)
    (db : AdminTables) (h : Covers Q call db) where
  guarded-intro :
      (action : Str) (rest : AdminTables × Answer) → Q action rest → Q action (guarded call db rest)
  unfolding guarded
  guarded-intro action rest q = elim (Option-cases call.refused_by_auth) [
    | inl e ↦ rw e (if_intro (Q action) (not call.csrf_ok) (h.refusal action _) q)
    | inr (r, e) ↦ rw e (h.refusal action r)
  ]

  patch_requested-intro :
      (role : Requested Role) (status : Requested Status)
      → Q (js "admin_user_changed") (patch_requested call role status db)
  unfolding patch_requested
  patch_requested-intro unknown status = h.refusal _ _
  patch_requested-intro absent unknown = h.refusal _ _
  patch_requested-intro (asked role) unknown = h.refusal _ _
  patch_requested-intro absent absent = h.refusal _ _
  patch_requested-intro absent (asked s) = h.change absent (asked s)
  patch_requested-intro (asked r) absent = h.change (asked r) absent
  patch_requested-intro (asked r) (asked s) = h.change (asked r) (asked s)

  patch_fields-intro : (fs : Fields) → Q (js "admin_user_changed") (patch_fields rt call fs db)
  unfolding patch_fields
  patch_fields-intro fs =
      patch_requested-intro (requested rt read_role (get fs (js "role")))
        (requested rt read_status (get fs (js "status")))

  patch_body-intro : (body : Option Json) → Q (js "admin_user_changed") (patch_body rt call body db)
  unfolding patch_body
  patch_body-intro none = patch_fields-intro end
  patch_body-intro (some null) = h.exception _
  patch_body-intro (some (bool b)) = patch_fields-intro end
  patch_body-intro (some (num n)) = patch_fields-intro end
  patch_body-intro (some (str s)) = patch_fields-intro end
  patch_body-intro (some (arr xs)) = patch_fields-intro end
  patch_body-intro (some (obj fs)) = patch_fields-intro fs

  pub handle-intro : (req : AccountRequest) → Q (action_of req) (handle rt call req db)
  unfolding handle patch_user delete_account post_unlock post_reset_mfa post_revoke_sessions
  handle-intro (patch body) = guarded-intro _ _ (patch_body-intro body)
  handle-intro delete = guarded-intro _ _ h.deletion
  handle-intro unlock = guarded-intro _ _ h.unlocking
  handle-intro reset = guarded-intro _ _ h.mfa_reset
  handle-intro revoke = guarded-intro _ _ h.revocation

-- The tables stay governed.
abbrev Governs : ℕ → AdminTables → AdminTables × Answer → Type 0
Governs now db r = IsGoverned now db → IsGoverned now r.0

settle-Governs :
    {A : Type 0} (call : UserCall) (message : Str) (answer : A → Answer) (db : AdminTables)
    (t : Transaction A)
    → (IsGoverned call.now db → Commits (IsGoverned call.now) t)
    → Governs call.now db (settle call message answer db t)
unfolding settle rollback on_fault recoverable_administrator_count
settle-Governs call message answer db (committed a db') h = h
settle-Governs call message answer db (raised final_administrator left) h = λ g. g
settle-Governs call message answer db (raised user_not_found left) h = λ g. g
settle-Governs call message answer db (raised other_fault left) h = λ g. g

pub handle-IsGoverned :
    (rt : Runtime) (call : UserCall) (req : AccountRequest) (db : AdminTables)
    → IsGoverned call.now db
    → IsGoverned call.now (handle rt call req db).0
handle-IsGoverned rt call req db =
    handle-intro (λ _ r. Governs call.now db r) rt call db
      (record {
        refusal = λ _ r g. g;
        exception = λ _ g. g;
        change = λ role status.
            settle-Governs call _ changed db (change_user call role status db)
              (change_user-IsGoverned call role status db);
        deletion =
            settle-Governs call _ (λ _. acknowledged) db (delete_user call db)
              (delete_user-IsGoverned call db);
        unlocking =
            settle-Governs call _ (λ _. acknowledged) db (unlock_user call db)
              (unlock_user-IsGoverned call db);
        mfa_reset =
            settle-Governs call _ (λ _. reauthenticate) db (reset_mfa call db)
              (reset_mfa-IsGoverned call db);
        revocation =
            settle-Governs call _ revoked db (revoke_sessions call db)
              (revoke_sessions-IsGoverned call db);
      })
      req
