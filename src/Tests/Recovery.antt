-- ===== src/Tests/Recovery.antt =====
-- Resetting a password and redeeming an invitation, at concrete requests.
use frankai_online.Common.{
  js, [], ◌∷◌, true, false, ◌≡◌, refl, is_space, trim, trim_start, trim_end, ◌===◌, Option, none,
  some, Json, null, str, obj, end, field, get,
}
use frankai_online.Auth.Accounts.{User, Session, user_role, admin_role, active, find}
use frankai_online.Auth.Refresh.{is_some}
use frankai_online.Auth.Recovery.{
  RecoveryTables, RecoveryCall, post_reset, on_body, reset_fields, reset_found, reset_tables,
  member_text, text_or_blank, is_open_token, address, normalise_email,
}
use frankai_online.Auth.Recovery.Once.{has_status}
use frankai_online.Auth.Recovery.Resets.{ResetOrKept, post_reset-ResetOrKept}
use frankai_online.Auth.Invitations.{
  post_redeem, redeem_fields, redeem_row, signed_in, is_open_invitation, is_address,
}
use frankai_online.Auth.Invitations.Redeemed.{RedeemedOrKept, post_redeem-RedeemedOrKept}
use frankai_online.Tests.Host.{host}

abbrev user : User
user = record {
  id = js "u1";
  email = js "ann@example.org";
  display_name = js "Ann";
  password_hash = js "old";
  password_hash_version = 1;
  role = user_role;
  role_version = 1;
  security_version = 1;
  status = active;
  email_verified_at = none;
  failed_login_count = 3;
  locked_until = none;
  last_login_at = none;
  password_changed_at = js "2026-01-01";
  mfa_required = false;
  mfa_enrolled_at = none;
  created_at = js "2026-01-01";
  updated_at = js "2026-01-01";
}

abbrev session : Session
session = record {
  id = js "s1";
  user_id = js "u1";
  token_hash = js "h1";
  token_family = js "f";
  expires_at = 1000;
  revoked_at = none;
  replaced_by_session_id = none;
  created_at = js "2026-01-01";
  last_used_at = none;
}

abbrev tables : RecoveryTables
tables = record {
  users = user ∷ [];
  sessions = session ∷ [];
  invitations =
      record {
        id = js "i1";
        token_hash = js "tok";
        email = js "bob@example.org";
        role = admin_role;
        expires_at = 100;
        used_at = none;
        revoked_at = none;
      }
      ∷ [];
  reset_tokens =
      record { user_id = js "u1"; token_hash = js "tok"; expires_at = 100; used_at = none } ∷ [];
  outbox = [];
  audit_events = [];
}

abbrev call : RecoveryCall
call = record {
  csrf_ok = true;
  allowed = true;
  hash_token = λ s. s;
  hash_password = λ s. s;
  fresh_id = js "u2";
  fresh_token = js "new";
  fresh_session = js "s2";
  fresh_family = js "f2";
  now = 10;
  now_text = js "2026-02-01";
  mail_queued = true;
  configured = true;
}

abbrev reset_body : Option Json
reset_body = some (
    obj
      (field (js "token") (str (js "tok")) (field (js "password") (str (js "correct horse")) end)))

abbrev redeem_body : Option Json
redeem_body = some (
    obj (
      field (js "token") (str (js "tok")) (
        field (js "email") (str (js " Bob@example.org")) (
          field (js "password") (str (js "correct horse"))
            (field (js "displayName") (str (js "Bob")) end)))))

reset_answered : has_status 200 (post_reset call reset_body tables).1 ≡ true
unfolding post_reset on_body reset_fields reset_found reset_tables member_text text_or_blank
    is_open_token find ◌===◌ is_some get
reset_answered = refl

redeem_answered : has_status 201 (post_redeem (host null) call redeem_body tables).1 ≡ true
unfolding post_redeem on_body redeem_fields redeem_row signed_in member_text text_or_blank
    is_open_invitation find ◌===◌ is_some get is_address trim trim_start trim_end is_space address
    normalise_email
redeem_answered = refl

post_reset-ResetOrKept_example :
    ResetOrKept call reset_body tables (post_reset call reset_body tables)
post_reset-ResetOrKept_example = post_reset-ResetOrKept call reset_body tables

post_redeem-RedeemedOrKept_example :
    RedeemedOrKept call tables (post_redeem (host null) call redeem_body tables)
post_redeem-RedeemedOrKept_example = post_redeem-RedeemedOrKept (host null) call redeem_body tables
