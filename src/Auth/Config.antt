-- ===== src/Auth/Config.antt =====
-- lib/auth/config.ts: the settings of accounts, read from the environment.
pub mod Hardened
use frankai_online.Common.{
  ℕ, ◌*◌, Str, js, List, [], ◌∷◌, ◌++◌, Bool, true, false, not, ◌&&◌, ◌||◌, ltb, if◌then◌else◌,
  length, is_empty, str_mem, ◌===◌, join, Runtime, missing, Option, none, some, Number, Checked,
  accepted, refused,
}

abbrev pub Environment : Type 0
Environment = Str → Option Str

abbrev pub example_secrets : List Str
example_secrets = js "change-me" ∷ js "example" ∷ js "secret" ∷ js "development-secret" ∷ []

pub record AuthConfig : Type 0 where
  pub access_secret : Str
  pub refresh_secret : Str
  pub issuer : Str
  pub audience : Str
  pub access_ttl_seconds : ℕ
  pub refresh_ttl_seconds : ℕ
  pub data_dir : Str
  pub cookie_secure : Bool
  pub same_site : Str
  pub signup_enabled : Bool
  pub invitation_signup_enabled : Bool
  pub admin_reauth_max_age_seconds : Option Number
  pub login_failure_limit : Option Number
  pub login_lock_seconds : Option Number
  pub login_failure_window_seconds : Option Number

-- `value || fallback` for a text
abbrev pub text_or : Str → Str → Str
text_or s fallback = if is_empty s then fallback else s

-- `process.env.NAME || fallback`
abbrev pub setting_or : Option Str → Str → Str
setting_or none fallback = fallback
setting_or (some s) fallback = text_or s fallback

-- `process.env.NAME === text`
unfoldable pub is_set : Option Str → Str → Bool
is_set none t = false
is_set (some s) t = s === t

-- `Number(process.env.NAME || fallback)`; `none` where that is no finite number.
unfoldable pub number_setting : Runtime → Option Str → ℕ → Option Number
number_setting rt none fallback =
    some (record { negative = false; magnitude = fallback; shift = 0 })
number_setting rt (some s) fallback =
    if is_empty s
    then some (record { negative = false; magnitude = fallback; shift = 0 })
    else rt.to_number s

unfoldable pub is_weak : Str → Bool
is_weak value = is_empty value || str_mem value example_secrets || ltb (length value) 32

unfoldable pub missing_secrets : Str → Str → List Str
missing_secrets access_secret refresh_secret =
    let rest = if is_weak refresh_secret then js "JWT_REFRESH_SECRET" ∷ [] else [] in
    if is_weak access_secret then js "JWT_ACCESS_SECRET" ∷ rest else rest

unfoldable pub is_same_site : Str → Bool
is_same_site s = str_mem s (js "lax" ∷ js "strict" ∷ js "none" ∷ [])

-- The settings, where the checks before have passed.
unfoldable pub settings : Runtime → Environment → Bool → AuthConfig
settings rt env production = record {
  access_secret =
      setting_or (env (js "JWT_ACCESS_SECRET")) (js "development-access-secret-change-me");
  refresh_secret =
      setting_or (env (js "JWT_REFRESH_SECRET")) (js "development-refresh-secret-change-me");
  issuer =
      setting_or (env (js "JWT_ISSUER"))
        (setting_or (env (js "APP_BASE_URL")) (js "https://frankai.online"));
  audience = setting_or (env (js "JWT_AUDIENCE")) (js "frankai-web");
  access_ttl_seconds = 10 * 60;
  refresh_ttl_seconds = 7 * 24 * 60 * 60;
  data_dir = setting_or (env (js "AUTH_DATA_DIR")) (js "/var/lib/frankai-site/auth");
  cookie_secure = not (is_set (env (js "COOKIE_SECURE")) (js "false")) && production;
  same_site = setting_or (env (js "COOKIE_SAME_SITE")) (js "lax");
  signup_enabled = is_set (env (js "PUBLIC_SIGNUP_ENABLED")) (js "true");
  invitation_signup_enabled = is_set (env (js "INVITATION_SIGNUP_ENABLED")) (js "true");
  admin_reauth_max_age_seconds = number_setting rt (env (js "ADMIN_REAUTH_MAX_AGE_SECONDS")) 600;
  login_failure_limit = number_setting rt (env (js "LOGIN_FAILURE_LIMIT")) 5;
  login_lock_seconds = number_setting rt (env (js "LOGIN_LOCK_SECONDS")) 900;
  login_failure_window_seconds = number_setting rt (env (js "LOGIN_FAILURE_WINDOW_SECONDS")) 900;
}

-- `if (condition) throw new Error(message)`
abbrev pub reject : Bool → Str → Checked AuthConfig → Checked AuthConfig
reject condition message rest = if condition then refused message else rest

-- `authConfig()`; `refused` is the exception.
unfoldable pub auth_config : Runtime → Environment → Checked AuthConfig
auth_config rt env =
    let production = is_set (env (js "NODE_ENV")) (js "production") in
    let missing =
      missing_secrets (setting_or (env (js "JWT_ACCESS_SECRET")) [])
        (setting_or (env (js "JWT_REFRESH_SECRET")) []) in
    let same_site = setting_or (env (js "COOKIE_SAME_SITE")) (js "lax") in
    reject (production && not (is_empty missing))
      (js "Authentication is not configured: " ++ join (js ", ") missing)
      (reject (production && not (is_set (env (js "AUTH_STORE")) (js "postgres")))
        (js "AUTH_STORE must be postgres in production")
        (reject (production && not (is_set (env (js "AUTH_DATABASE_ENABLED")) (js "true")))
          (js "AUTH_DATABASE_ENABLED must be true in production")
          (reject (production && is_empty (setting_or (env (js "DATABASE_URL")) []))
            (js "DATABASE_URL is required in production")
            (reject (production && not (is_set (env (js "COOKIE_SECURE")) (js "true")))
              (js "COOKIE_SECURE must be true in production")
              (reject (not (is_same_site same_site)) (js "COOKIE_SAME_SITE is invalid") (
                reject
                  (production && same_site === js "none" && is_set (env (js "ALLOWED_ORIGINS")) [])
                  (js "SameSite=None requires an origin allowlist")
                  (accepted (settings rt env production))))))))
