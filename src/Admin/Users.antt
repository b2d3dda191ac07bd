-- ===== src/Admin/Users.antt =====
-- app/api/admin/users/[id]: changing, deleting, unlocking and resetting an account, and revoking its
-- sessions.
use frankai_online.Common.{
  ℕ, ◌+◌, Str, js, map, Bool, true, false, not, ◌&&◌, ◌||◌, ltb, if◌then◌else◌, filter, str_mem,
  ◌===◌, Runtime, Option, none, some, Json, str, Reply,
}
use frankai_online.Auth.Accounts.{
  User, Session, Role, user_role, admin_role, Status, active, disabled, locked,
  pending_verification, find, role_text,
}
use frankai_online.Auth.Refresh.{has_id, is_live}
use frankai_online.Auth.Refresh.Counting.{count}
use frankai_online.Admin.Membership.{
  AdminTables, RecoveryCode, final_administrator, user_not_found, other_fault, Transaction, raised,
  is_admin, recoverable_administrator_count, audit_in_transaction, conclude,
}

-- What a request meets: the reply of the administrator's guard where it refuses, the outcome of the
-- CSRF check, the administrator, the account's id, and the clock.
pub record UserCall : Type 0 where
  pub refused_by_auth : Option Reply
  pub csrf_ok : Bool
  pub actor : Str
  pub id : Str
  pub now : ℕ
  pub now_text : Str

pub data Answer : Type 0 where
  changed : User → Answer
  acknowledged : Answer
  reauthenticate : Answer
  revoked : ℕ → Answer
  failed : Reply → Answer
  thrown_out : Answer

abbrev pub status_text : Status → Str
status_text active = js "ACTIVE"
status_text disabled = js "DISABLED"
status_text locked = js "LOCKED"
status_text pending_verification = js "PENDING_VERIFICATION"

-- `roles.has(value)` and `statuses.has(value)`, with the value that the text names
unfoldable pub read_role : Str → Option Role
read_role s =
    if s === js "USER" then some user_role else if s === js "ADMIN" then some admin_role else none

unfoldable pub read_status : Str → Option Status
read_status s =
    if s === js "ACTIVE"
    then some active
    else if s === js "DISABLED"
    then some disabled
    else if s === js "LOCKED"
    then some locked
    else if s === js "PENDING_VERIFICATION"
    then some pending_verification
    else none

-- `String(value)`
unfoldable pub given_text : Runtime → Json → Str
given_text rt (str s) = s
given_text rt v = rt.to_text v

-- A requested value that is absent, allowed, or refused.
pub data Requested (A : Type 0) : Type 0 where
  absent : Requested A
  asked : A → Requested A
  unknown : Requested A

unfoldable pub known : {A : Type 0} → Option A → Requested A
known none = unknown
known (some a) = asked a

unfoldable pub requested : {A : Type 0} → Runtime → (Str → Option A) → Option Json → Requested A
unfolding known given_text
requested rt read none = absent
requested rt read (some v) = known (read (given_text rt v))

unfoldable pub or_current : {A : Type 0} → Requested A → A → A
or_current (asked a) current = a
or_current _ current = current

-- The `UPDATE` of the change, on the row with its old values.
unfoldable pub changed_user : UserCall → Role → Status → Bool → User → User
changed_user call role status mfa_required u =
    let role_differs = not (role_text u.role === role_text role) in
    let status_differs = not (status_text u.status === status_text status) in
    record u {
      role = role;
      status = status;
      mfa_required = mfa_required;
      role_version = if role_differs then u.role_version + 1 else u.role_version;
      security_version =
          if status_differs || role_differs then u.security_version + 1 else u.security_version;
      updated_at = call.now_text;
    }

-- `UPDATE users … WHERE id=$1`
unfoldable pub at_id : Str → (User → User) → User → User
at_id i f u = if has_id i u then f u else u

unfoldable pub update_user : Str → (User → User) → AdminTables → AdminTables
update_user i f db = record db { users = map (at_id i f) db.users }

-- The row that a query by id gives, where it gives one.
unfoldable pub on_user :
    {A : Type 0} → AdminTables → (User → Transaction A) → Option User → Transaction A
on_user db act none = raised user_not_found db
on_user db act (some u) = act u

unfoldable pub finish_change : UserCall → Role → User → AdminTables → Transaction User
finish_change call role u db =
    on_user db
      (λ updated.
        conclude call.now (is_admin u.role || is_admin role) updated
          (audit_in_transaction call.actor (js "admin_user_changed") (js "success") call.id db) db)
      (find (has_id call.id) db.users)

unfoldable pub change_row :
    UserCall → Requested Role → Requested Status → AdminTables → User → Transaction User
change_row call role status db u =
    let role' = or_current role u.role in
    let status' = or_current status u.status in
    finish_change call role' u
      (update_user call.id (changed_user call role' status' (is_admin role' || u.mfa_required)) db)

unfoldable pub change_user :
    UserCall → Requested Role → Requested Status → AdminTables → Transaction User
unfolding change_row finish_change or_current
change_user call role status db =
    on_user db (change_row call role status db) (find (has_id call.id) db.users)

-- `DELETE FROM users`, which takes the user's sessions, codes and secret along; the database
-- refuses while another row names the user as its author.
unfoldable pub without_user : Str → AdminTables → AdminTables
without_user i db = record db {
  users = filter (λ u. not (has_id i u)) db.users;
  sessions = filter (λ (s : Session). not (s.user_id === i)) db.sessions;
  recovery_codes = filter (λ (c : RecoveryCode). not (c.user_id === i)) db.recovery_codes;
  mfa_secrets = filter (λ s. not (s === i)) db.mfa_secrets;
}

unfoldable pub delete_row : UserCall → AdminTables → User → Transaction (Unit {0})
delete_row call db u =
    if str_mem call.id db.creators
    then raised other_fault db
    else let db' = without_user call.id db in
      conclude call.now (is_admin u.role) tt
        (audit_in_transaction call.actor (js "admin_user_deleted") (js "success") call.id db') db'

unfoldable pub delete_user : UserCall → AdminTables → Transaction (Unit {0})
unfolding delete_row
delete_user call db = on_user db (delete_row call db) (find (has_id call.id) db.users)

unfoldable pub unlocked : UserCall → User → User
unlocked call u = record u {
  status = active;
  failed_login_count = 0;
  locked_until = none;
  updated_at = call.now_text;
}

unfoldable pub unlock_row : UserCall → AdminTables → User → Transaction (Unit {0})
unlock_row call db u =
    let db' = update_user call.id (unlocked call) db in
    conclude call.now (is_admin u.role) tt
      (audit_in_transaction call.actor (js "admin_user_unlocked") (js "success") call.id db') db'

unfoldable pub unlock_user : UserCall → AdminTables → Transaction (Unit {0})
unfolding unlock_row
unlock_user call db = on_user db (unlock_row call db) (find (has_id call.id) db.users)

unfoldable pub without_mfa : UserCall → User → User
without_mfa call u = record u {
  mfa_enrolled_at = none;
  mfa_required = true;
  security_version = u.security_version + 1;
  updated_at = call.now_text;
}

unfoldable pub without_codes : Str → AdminTables → AdminTables
without_codes i db = record db {
  recovery_codes = filter (λ (c : RecoveryCode). not (c.user_id === i)) db.recovery_codes;
  mfa_secrets = filter (λ s. not (s === i)) db.mfa_secrets;
}

unfoldable pub reset_row : UserCall → AdminTables → User → Transaction (Unit {0})
reset_row call db u =
    let db' = update_user call.id (without_mfa call) (without_codes call.id db) in
    conclude call.now (is_admin u.role) tt
      (audit_in_transaction call.actor (js "admin_mfa_reset") (js "success") call.id db') db'

unfoldable pub reset_mfa : UserCall → AdminTables → Transaction (Unit {0})
unfolding reset_row
reset_mfa call db = on_user db (reset_row call db) (find (has_id call.id) db.users)

unfoldable pub live_of : Str → Session → Bool
live_of i s = (s.user_id === i) && is_live s

unfoldable pub revoke_of : UserCall → Session → Session
revoke_of call s = if live_of call.id s then record s { revoked_at = some call.now } else s

-- The sessions of an administrator are revoked only while another one can recover the site.
unfoldable pub revoke_row : UserCall → AdminTables → User → Transaction ℕ
revoke_row call db u =
    if is_admin u.role && ltb (recoverable_administrator_count call.now db) 2
    then raised final_administrator db
    else let db' = record db { sessions = map (revoke_of call) db.sessions } in
      conclude call.now false (count (live_of call.id) db.sessions)
        (audit_in_transaction call.actor (js "admin_sessions_revoked") (js "success") call.id db')
        db'

unfoldable pub revoke_sessions : UserCall → AdminTables → Transaction ℕ
unfolding revoke_row live_of revoke_of
revoke_sessions call db = on_user db (revoke_row call db) (find (has_id call.id) db.users)
