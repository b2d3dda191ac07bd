-- ===== src/Auth/Config/Hardened.antt =====
-- lib/auth/config.ts: what the settings promise in production.
use frankai_online.Common.{
  Str, js, [], ◌∷◌, Bool, true, false, not, ◌≤◌, length, ◌&&◌, ◌≡◌, refl, ap, is_empty, str_mem,
  ◌===◌, ===_iff, Runtime, arith, Option, none, some, Checked, accepted, accepted-injective, subst,
}
use frankai_online.Auth.Config.{
  Environment, AuthConfig, example_secrets, setting_or, is_set, is_weak, missing_secrets,
  is_same_site, settings, reject, auth_config,
}

-- A secret of at least 32 characters that is none of the examples.
pub record IsStrong (secret : Str) : Type 0 where
  pub long : 32 ≤ length secret
  pub no_example : str_mem secret example_secrets ≡ false

-- What a start in production has made sure of.
pub record IsHardened (env : Environment) (c : AuthConfig) : Type 0 where
  pub access_secret_strong : IsStrong c.access_secret
  pub refresh_secret_strong : IsStrong c.refresh_secret
  pub cookies_secure : c.cookie_secure ≡ true
  pub same_site_known : str_mem c.same_site (js "lax" ∷ js "strict" ∷ js "none" ∷ []) ≡ true
  pub store_set : env (js "AUTH_STORE") ≡ some (js "postgres")
  pub database_enabled : env (js "AUTH_DATABASE_ENABLED") ≡ some (js "true")
  pub database_given : is_empty (setting_or (env (js "DATABASE_URL")) []) ≡ false

reject-accepted :
    (condition : Bool) (message : Str) (rest : Checked AuthConfig) (c : AuthConfig)
    → reject condition message rest ≡ accepted c
    → (condition ≡ false) × (rest ≡ accepted c)
reject-accepted true message rest c h = absurd (ground arith)
reject-accepted false message rest c h = (refl, h)

is_set-true : (o : Option Str) (t : Str) → is_set o t ≡ true → o ≡ some t
unfolding is_set
is_set-true none t h = absurd (ground arith)
is_set-true (some s) t h = ap some ((===_iff s t).0 h)

required-true : (b : Bool) → (true && not b) ≡ false → b ≡ true
required-true b h = ground arith

missing_secrets-strong :
    (a r : Str)
    → (true && not (is_empty (missing_secrets a r))) ≡ false
    → (is_weak a ≡ false) × (is_weak r ≡ false)
unfolding missing_secrets
missing_secrets-strong a r h = (ground arith, ground arith)

-- A secret that is strong is used as it is set.
strong_setting :
    (o : Option Str) (fallback : Str)
    → is_weak (setting_or o []) ≡ false
    → is_weak (setting_or o fallback) ≡ false
unfolding is_weak str_mem ◌===◌
strong_setting none fallback h = absurd (ground arith)
strong_setting (some []) fallback h = absurd (ground arith)
strong_setting (some (u ∷ s)) fallback h = h

secure_setting :
    (o : Option Str) → is_set o (js "true") ≡ true → (not (is_set o (js "false")) && true) ≡ true
unfolding is_set ◌===◌
secure_setting o h = rw (is_set-true o (js "true") h) refl

is_set-production :
    (o : Option Str) → o ≡ some (js "production") → is_set o (js "production") ≡ true
unfolding is_set ◌===◌
is_set-production o h = rw h refl

is_weak-IsStrong : (s : Str) → is_weak s ≡ false → IsStrong s
unfolding is_weak
is_weak-IsStrong s h = record { long = ground arith; no_example = ground arith }

settings-IsHardened :
    (rt : Runtime) (env : Environment)
    → is_weak (setting_or (env (js "JWT_ACCESS_SECRET")) []) ≡ false
    → is_weak (setting_or (env (js "JWT_REFRESH_SECRET")) []) ≡ false
    → is_set (env (js "AUTH_STORE")) (js "postgres") ≡ true
    → is_set (env (js "AUTH_DATABASE_ENABLED")) (js "true") ≡ true
    → is_empty (setting_or (env (js "DATABASE_URL")) []) ≡ false
    → is_set (env (js "COOKIE_SECURE")) (js "true") ≡ true
    → is_same_site (setting_or (env (js "COOKIE_SAME_SITE")) (js "lax")) ≡ true
    → IsHardened env (settings rt env true)
unfolding settings is_same_site
settings-IsHardened rt env access refresh store enabled database secure same_site = record {
  access_secret_strong =
      is_weak-IsStrong _ (strong_setting (env (js "JWT_ACCESS_SECRET")) _ access);
  refresh_secret_strong =
      is_weak-IsStrong _ (strong_setting (env (js "JWT_REFRESH_SECRET")) _ refresh);
  cookies_secure = secure_setting (env (js "COOKIE_SECURE")) secure;
  same_site_known = same_site;
  store_set = is_set-true (env (js "AUTH_STORE")) (js "postgres") store;
  database_enabled = is_set-true (env (js "AUTH_DATABASE_ENABLED")) (js "true") enabled;
  database_given = database;
}

not-false : (b : Bool) → not b ≡ false → b ≡ true
not-false b h = ground arith

-- Where the settings are read in production without an exception, both token secrets have at least
-- 32 characters and are none of the examples, cookies are sent over TLS only, the SameSite setting
-- is a known one, and the accounts are in a database that is enabled and has an address.
pub auth_config-IsHardened :
    (rt : Runtime) (env : Environment) (c : AuthConfig)
    → env (js "NODE_ENV") ≡ some (js "production")
    → auth_config rt env ≡ accepted c
    → IsHardened env c
unfolding auth_config
auth_config-IsHardened rt env c production h =
    let on = is_set-production (env (js "NODE_ENV")) production in
    let (a1, h1) = reject-accepted _ _ _ c (rw on at h) in
    let (a2, h2) = reject-accepted _ _ _ c h1 in
    let (a3, h3) = reject-accepted _ _ _ c h2 in
    let (a4, h4) = reject-accepted _ _ _ c h3 in
    let (a5, h5) = reject-accepted _ _ _ c h4 in
    let (a6, h6) = reject-accepted _ _ _ c h5 in
    let (a7, h7) = reject-accepted _ _ _ c h6 in
    let (access, refresh) = missing_secrets-strong _ _ a1 in
    subst (IsHardened env) (accepted-injective h7) (
      settings-IsHardened rt env access refresh (required-true _ a2) (required-true _ a3) a4
        (required-true _ a5) (not-false _ a6))
