-- ===== src/Tests/Admin.antt =====
-- The account routes at one administrator and one other user.
use frankai_online.Common.{
  Str, js, [], ◌∷◌, true, false, refl, ◌===◌, arith, none, some, null, str, obj, end, field,
}
use frankai_online.Auth.Accounts.{User, admin_role, user_role, active}
use frankai_online.Auth.Refresh.{is_some}
use frankai_online.Auth.Refresh.Counting.{count}
use frankai_online.Admin.Membership.{AdminTables, is_recoverable, recoverable_administrator_count}
use frankai_online.Admin.Users.{UserCall}
use frankai_online.Auth.Login.{is_locked_at}
use frankai_online.Admin.Recoverable.{IsGoverned}
use frankai_online.Admin.Routes.{AccountRequest, patch, handle}
use frankai_online.Admin.Reach.{later, answered, Reach, here, next, Reach-IsGoverned}
use frankai_online.Tests.Host.{host}

abbrev administrator : User
administrator = record {
  id = js "a";
  email = js "ann@example.org";
  display_name = js "Ann";
  password_hash = js "hash";
  password_hash_version = 1;
  role = admin_role;
  role_version = 1;
  security_version = 1;
  status = active;
  email_verified_at = some (js "2026-01-01");
  failed_login_count = 0;
  locked_until = none;
  last_login_at = none;
  password_changed_at = js "2026-01-01";
  mfa_required = true;
  mfa_enrolled_at = some (js "2026-01-01");
  created_at = js "2026-01-01";
  updated_at = js "2026-01-01";
}

abbrev member : User
member = record administrator { id = js "b"; role = user_role; mfa_enrolled_at = none }

abbrev tables : AdminTables
tables = record {
  users = administrator ∷ member ∷ [];
  sessions = [];
  recovery_codes = record { user_id = js "a"; is_used = false } ∷ [];
  mfa_secrets = js "a" ∷ [];
  creators = [];
  audit_events = [];
}

abbrev on_account : Str → UserCall
on_account i = record {
  refused_by_auth = none;
  csrf_ok = true;
  actor = js "a";
  id = i;
  now = 10;
  now_text = js "2026-02-01";
}

abbrev promotion : AccountRequest
promotion = patch (some (obj (field (js "role") (str (js "ADMIN")) end)))

tables-IsGoverned : IsGoverned 5 tables
unfolding recoverable_administrator_count is_recoverable is_some ◌===◌ count is_locked_at
tables-IsGoverned = (((refl, tt), (tt, tt)), omega arith)

later_answered :
    Reach (host null) 5 tables 10 (handle (host null) (on_account (js "b")) promotion tables).0
later_answered =
    next (next here (later 5 10 tables (omega arith)))
      (answered (on_account (js "b")) promotion tables)

Reach-IsGoverned_example :
    IsGoverned 10 (handle (host null) (on_account (js "b")) promotion tables).0
Reach-IsGoverned_example = Reach-IsGoverned (host null) later_answered tables-IsGoverned
