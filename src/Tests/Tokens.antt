-- ===== src/Tests/Tokens.antt =====
-- The theorems on settings, tokens and guards, at one administrator with a token.
use frankai_online.Common.{
  ◌+◌, Str, js, true, ◌||◌, ◌≡◌, refl, ltb, if◌then◌else◌, str_mem, ◌===◌, Runtime, arith, none,
  some, Json, null, obj, Fields, field, accepted,
}
use frankai_online.Auth.Accounts.{User, admin_role, active}
use frankai_online.Auth.Config.{
  Environment, AuthConfig, auth_config, settings, is_set, is_weak, missing_secrets, is_same_site,
  number_setting,
}
use frankai_online.Auth.Config.Hardened.{IsHardened, auth_config-IsHardened}
use frankai_online.Auth.Tokens.{
  Cipher, encode, header_fields, claims_fields, issued_token, issue_access_token, with_settings,
  is_id, is_hex_or_dash, all_units, verify_access_token,
}
use frankai_online.Auth.Tokens.Lifetime.{IsEncoded, IsSigning, verify_access_token-issued}
use frankai_online.Tests.Host.{host}

abbrev pub long_secret : Str
long_secret = js "0123456789abcdef0123456789abcdef"

abbrev pub production : Environment
production name =
    if name === js "NODE_ENV"
    then some (js "production")
    else if name === js "AUTH_STORE"
    then some (js "postgres")
    else if name === js "DATABASE_URL"
    then some (js "postgres://db")
    else if name === js "AUTH_DATABASE_ENABLED" || name === js "COOKIE_SECURE"
    then some (js "true")
    else if name === js "JWT_ACCESS_SECRET" || name === js "JWT_REFRESH_SECRET"
    then some long_secret
    else none

abbrev pub config : AuthConfig
config = settings (host null) production true

production_starts : auth_config (host null) production ≡ accepted config
unfolding auth_config settings is_set is_weak missing_secrets is_same_site str_mem ◌===◌
production_starts = refl

production_named : production (js "NODE_ENV") ≡ some (js "production")
unfolding ◌===◌
production_named = refl

auth_config-IsHardened_example : IsHardened production config
auth_config-IsHardened_example =
    auth_config-IsHardened (host null) production config production_named production_starts

abbrev pub subject : Str
subject = js "123e4567-e89b-12d3-a456-426614174000"

abbrev pub administrator : User
administrator = record {
  id = subject;
  email = js "ann@example.org";
  display_name = js "Ann";
  password_hash = js "hash";
  password_hash_version = 1;
  role = admin_role;
  role_version = 1;
  security_version = 1;
  status = active;
  email_verified_at = some (js "2026-01-01");
  failed_login_count = 0;
  locked_until = none;
  last_login_at = none;
  password_changed_at = js "2026-01-01";
  mfa_required = true;
  mfa_enrolled_at = some (js "2026-01-01");
  created_at = js "2026-01-01";
  updated_at = js "2026-01-01";
}

abbrev pub claims : Fields
claims = claims_fields config 100 subject administrator true

-- One letter for each of the two values.
abbrev pub letter_of : Json → Str
letter_of (obj (field k v fs)) = if k === js "alg" then js "h" else js "c"
letter_of _ = js "x"

abbrev pub token_host : Runtime
token_host = record (host null) {
  stringify = letter_of;
  parse = λ s. if s === js "h" then some (obj header_fields) else some (obj claims);
}

abbrev pub cipher : Cipher
cipher = record { to_base64url = λ s. s; of_base64url = λ s. s; sign = λ body secret. js "s" }

abbrev token : Str
token = issued_token token_host cipher config 100 subject administrator true

token_issued :
    issue_access_token token_host cipher production 100 subject administrator true ≡ some token
unfolding issue_access_token with_settings auth_config settings is_set is_weak missing_secrets
    is_same_site str_mem ◌===◌ number_setting
token_issued = refl

signing : IsSigning cipher
signing = record { no_dot = λ body secret. (refl, tt); not_empty = λ body secret. refl }

header-IsEncoded : IsEncoded token_host cipher (obj header_fields)
unfolding encode ◌===◌
header-IsEncoded = record { no_dot = (refl, tt); not_empty = refl; reads_back = refl }

claims-IsEncoded : IsEncoded token_host cipher (obj claims)
unfolding encode ◌===◌
claims-IsEncoded = record { no_dot = (refl, tt); not_empty = refl; reads_back = refl }

subject-is_id : is_id subject ≡ true
unfolding is_id all_units is_hex_or_dash
subject-is_id = refl

token_host_starts : auth_config token_host production ≡ accepted config
unfolding auth_config settings is_set is_weak missing_secrets is_same_site str_mem ◌===◌
    number_setting
token_host_starts = refl

verify_access_token-issued_example :
    verify_access_token token_host cipher production 200 token
    ≡ (if ltb 200 (100 + config.access_ttl_seconds) then some claims else none)
verify_access_token-issued_example =
    verify_access_token-issued token_host cipher production config 100 200 subject administrator
      true token token_host_starts token_issued signing header-IsEncoded claims-IsEncoded
      subject-is_id subject-is_id (omega arith)
