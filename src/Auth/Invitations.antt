-- ===== src/Auth/Invitations.antt =====
-- app/api/auth/invitations/redeem: the account that an invitation gives.
pub mod Redeemed
use frankai_online.Common.{
  ◌+◌, ◌*◌, Str, js, [], ◌∷◌, ◌++◌, map, Bool, true, false, not, ◌&&◌, ◌||◌, ltb, ◌==◌,
  if◌then◌else◌, length, take, is_empty, is_space, trim, ◌===◌, Runtime, Option, none, some, Json,
  null, bool, str, obj, Fields, end, field, get, whole, error_reply, Outcome, replied, thrown,
}
use frankai_online.Auth.Accounts.{
  User, Role, user_role, admin_role, role_text, active, find, has_email,
}
use frankai_online.Auth.Refresh.{is_some}
use frankai_online.Auth.Recovery.{
  Invitation, RecoveryTables, RecoveryCall, on_body, member_text, address, logged,
}

-- `/^\S+@\S+\.\S+$/`
solid : Str → Bool
solid [] = true
solid (c ∷ s) = not (is_space c) && solid s

dot_within : Str → Bool
dot_within [] = false
dot_within (c ∷ s) = (c == 46 && not (is_empty s)) || dot_within s

domain_of : Str → Bool
domain_of [] = false
domain_of (c ∷ s) = dot_within s

after_at : Str → Bool
after_at [] = false
after_at (c ∷ s) = if c == 64 then domain_of s else after_at s

unfoldable pub is_address : Str → Bool
unfolding solid dot_within domain_of after_at
is_address [] = false
is_address (c ∷ s) = solid (c ∷ s) && after_at s

-- The condition of the query for an invitation
unfoldable pub is_open_invitation : RecoveryCall → Str → Invitation → Bool
is_open_invitation call hash i =
    i.token_hash === hash
    && not (is_some i.used_at)
    && not (is_some i.revoked_at)
    && ltb call.now i.expires_at

abbrev pub is_admin_invitation : Role → Bool
is_admin_invitation admin_role = true
is_admin_invitation user_role = false

-- The row that is inserted, with the defaults of the table.
unfoldable pub invited_user : RecoveryCall → Str → Str → Str → Role → User
invited_user call email display_name password role = record {
  id = call.fresh_id;
  email = email;
  display_name = display_name;
  password_hash = call.hash_password password;
  password_hash_version = 1;
  role = role;
  role_version = 1;
  security_version = 1;
  status = active;
  email_verified_at = some call.now_text;
  failed_login_count = 0;
  locked_until = none;
  last_login_at = none;
  password_changed_at = call.now_text;
  mfa_required = is_admin_invitation role;
  mfa_enrolled_at = none;
  created_at = call.now_text;
  updated_at = call.now_text;
}

unfoldable pub use_invitation : RecoveryCall → Str → Invitation → Invitation
use_invitation call id i = if i.id === id then record i { used_at = some call.now } else i

-- The transaction, for the row of the invitation.
unfoldable pub redeemed_tables : RecoveryCall → User → Invitation → RecoveryTables → RecoveryTables
redeemed_tables call u i t =
    logged
      (record t {
        users = t.users ++ u ∷ [];
        invitations = map (use_invitation call i.id) t.invitations;
      })
      (js "invitation_redeemed") u.id (some u.id)

text_or_null : Option Str → Json
text_or_null none = null
text_or_null (some s) = str s

-- `publicUser(user)`: all fields but the password's hash; the status is the one of a new account.
unfoldable pub public_user : User → Json
unfolding text_or_null
public_user u = obj (
    field (js "id") (str u.id) (
      field (js "email") (str u.email) (
        field (js "displayName") (str u.display_name) (
          field (js "passwordHashVersion") (whole u.password_hash_version) (
            field (js "role") (str (role_text u.role)) (
              field (js "roleVersion") (whole u.role_version) (
                field (js "securityVersion") (whole u.security_version) (
                  field (js "status") (str (js "ACTIVE")) (
                    field (js "emailVerifiedAt") (text_or_null u.email_verified_at) (
                      field (js "failedLoginCount") (whole u.failed_login_count) (
                        field (js "lockedUntil") null (
                          field (js "lastLoginAt") null (
                            field (js "passwordChangedAt") (str u.password_changed_at) (
                              field (js "mfaRequired") (bool u.mfa_required) (
                                field (js "mfaEnrolledAt") null (
                                  field (js "createdAt") (str u.created_at)
                                    (field (js "updatedAt") (str u.updated_at) end)))))))))))))))))

unfoldable pub cannot_be_redeemed : Outcome
cannot_be_redeemed = replied (error_reply 400 (js "Invitation cannot be redeemed."))

-- What follows the commit: settings that cannot be read are answered like a refusal.
unfoldable pub signed_in : RecoveryCall → User → RecoveryTables → RecoveryTables × Outcome
signed_in call u t =
    if call.configured
    then (
      record t {
        sessions =
            t.sessions
            ++ record {
              id = call.fresh_session;
              user_id = u.id;
              token_hash = call.hash_token call.fresh_token;
              token_family = call.fresh_family;
              expires_at = call.now + 7 * 24 * 60 * 60 * 1000;
              revoked_at = none;
              replaced_by_session_id = none;
              created_at = call.now_text;
              last_used_at = none;
            }
              ∷ [];
      },
      replied (record { status = 201; body = obj (field (js "user") (public_user u) end) }),
    )
    else (t, cannot_be_redeemed)

unfoldable pub redeem_row :
    RecoveryCall → Str → Str → Str → RecoveryTables → Option Invitation → RecoveryTables × Outcome
redeem_row call email display_name password t none = (t, cannot_be_redeemed)
redeem_row call email display_name password t (some i) =
    if not (i.email === email) || is_some (find (has_email email) t.users)
    then (t, cannot_be_redeemed)
    else let u = invited_user call email display_name password i.role in
      signed_in call u (redeemed_tables call u i t)

unfoldable pub redeem_fields :
    Runtime → RecoveryCall → RecoveryTables → Fields → RecoveryTables × Outcome
redeem_fields rt call t fs =
    let token = member_text fs (js "token") in
    let email = address rt (get fs (js "email")) in
    let password = member_text fs (js "password") in
    let display_name = take 120 (trim (member_text fs (js "displayName"))) in
    if is_empty token
      || not (is_address email)
      || ltb (length password) 12
      || ltb 200 (length password)
      || is_empty display_name
    then (t, replied (error_reply 400 (js "Invitation details are invalid.")))
    else redeem_row call email display_name password t
        (find (is_open_invitation call (call.hash_token token)) t.invitations)

-- `POST /api/auth/invitations/redeem`
unfoldable pub post_redeem :
    Runtime → RecoveryCall → Option Json → RecoveryTables → RecoveryTables × Outcome
unfolding cannot_be_redeemed signed_in redeem_row redeem_fields
post_redeem rt call body t =
    if not call.csrf_ok
    then (t, replied (error_reply 403 (js "CSRF validation failed")))
    else if not call.allowed
    then (t, replied (error_reply 429 (js "Too many requests.")))
    else on_body (t, thrown) (redeem_fields rt call t) body
