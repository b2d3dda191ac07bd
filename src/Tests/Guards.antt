-- ===== src/Tests/Guards.antt =====
-- The guards' theorems at one administrator with a token.
use frankai_online.Common.{
  js, List, [], ◌∷◌, true, false, ◌&&◌, ◌≡◌, refl, is_space, trim_start, str_mem, ◌===◌,
  starts_with, none, some, get, is_integer, num_above, num_value, truthy, split_on, add_to_first,
}
use frankai_online.Auth.Accounts.{User, role_text, user_role, admin_role, active, find}
use frankai_online.Auth.Refresh.{has_id}
use frankai_online.Auth.Config.{
  auth_config, settings, is_set, is_weak, missing_secrets, is_same_site, number_setting,
}
use frankai_online.Auth.Tokens.{
  claims_fields, with_settings, is_id, is_hex_or_dash, all_units, verify_access_token,
  verified_token, verified_parts, verified_objects, claims_hold, header_holds, equals_text,
  tested_text, is_boolean, is_integral, integer_of, times_hold, outlives, same_bytes,
}
use frankai_online.Auth.Access.{
  HttpRequest, AuthSite, admitted, unauthorised, require_user, require_recent_admin, require_admin,
  access_claims, cookie_claims, decoded_claims, claims_access, user_access, admin_access,
  recent_access, cookie_value, user_of_claims, matching, is_subject, matches_user, equals_count,
  with_mfa, truthy_member, is_assured,
}
use frankai_online.Auth.Access.Admission.{IsRecentAdmin, require_recent_admin-IsRecentAdmin}
use frankai_online.Admin.Membership.{AdminTables}
use frankai_online.Admin.Users.{UserCall, status_text, changed_user, update_user}
use frankai_online.Admin.Stale.{changed_user-unauthorised}
use frankai_online.Tests.Tokens.{
  production, config, subject, administrator, claims, token_host, cipher,
}

abbrev request : HttpRequest
request = record {
  method = js "POST";
  cookie = some (js "a=b; __Host-frankai_access=h.c.s");
  csrf_token = none;
  origin = none;
}

abbrev site : List User → AuthSite
site users = record {
  env = production;
  allowed_origin = js "https://frankai.online";
  now = 200;
  database_now = 200000;
  decode = λ s. some s;
  users = users;
  assurances = record { jti = subject; user_id = subject; expires_at = 300000 } ∷ [];
}

claims_sent :
    access_claims token_host cipher (site (administrator ∷ [])) request ≡ some (some claims)
unfolding access_claims cookie_claims decoded_claims cookie_value verify_access_token with_settings
    auth_config settings is_set is_weak missing_secrets is_same_site str_mem ◌===◌ number_setting
    verified_token verified_parts verified_objects claims_hold header_holds equals_text tested_text
    is_boolean is_integral integer_of times_hold outlives same_bytes is_id all_units is_hex_or_dash
    split_on add_to_first get is_integer num_value num_above starts_with trim_start is_space
claims_sent = refl

administrator_admitted :
    require_recent_admin token_host cipher (site (administrator ∷ [])) request
    ≡ admitted administrator claims
unfolding require_recent_admin require_admin require_user claims_access user_access recent_access
    admin_access user_of_claims matching is_subject matches_user equals_count with_mfa truthy_member
    truthy is_assured find get ◌===◌ equals_text is_integer num_value
administrator_admitted = rw claims_sent refl

require_recent_admin-IsRecentAdmin_example :
    IsRecentAdmin token_host cipher (site (administrator ∷ [])) request administrator claims
require_recent_admin-IsRecentAdmin_example =
    require_recent_admin-IsRecentAdmin token_host cipher (site (administrator ∷ [])) request
      administrator claims administrator_admitted

abbrev demotion : UserCall
demotion = record {
  refused_by_auth = none;
  csrf_ok = true;
  actor = js "b";
  id = subject;
  now = 150000;
  now_text = js "2026-02-01";
}

abbrev tables : AdminTables
tables = record {
  users = administrator ∷ [];
  sessions = [];
  recovery_codes = [];
  mfa_secrets = [];
  creators = [];
  audit_events = [];
}

abbrev site_after : AuthSite
site_after = site (update_user subject (changed_user demotion user_role active true) tables).users

administrator_found : find (has_id subject) tables.users ≡ some administrator
unfolding find ◌===◌
administrator_found = refl

role_differs :
    ((role_text admin_role === role_text user_role) && (status_text active === status_text active))
    ≡ false
unfolding ◌===◌
role_differs = refl

claims_still_sent :
    access_claims token_host cipher site_after request
    ≡ some (some (claims_fields config 100 subject administrator true))
unfolding access_claims cookie_claims decoded_claims
claims_still_sent = claims_sent

changed_user-unauthorised_example : require_user token_host cipher site_after request ≡ unauthorised
changed_user-unauthorised_example =
    changed_user-unauthorised token_host cipher demotion user_role active true tables administrator
      site_after request config 100 subject true (tt, tt) administrator_found role_differs refl
      claims_still_sent
