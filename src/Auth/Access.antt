-- ===== src/Auth/Access.antt =====
-- lib/auth/http.ts: who a request comes from, and the guards of the routes.
pub mod Admission
use frankai_online.Common.{
  ℕ, zero, suc, ◌+◌, Str, js, List, [], ◌∷◌, ◌++◌, Bool, true, false, not, ◌&&◌, ◌||◌, ltb, ◌==◌,
  if◌then◌else◌, length, any, is_empty, trim_start, str_mem, ◌===◌, starts_with, Runtime, Option,
  none, some, Json, bool, num, str, obj, Fields, end, field, get, is_integer, num_value, truthy,
  Reply, error_reply,
}
use frankai_online.Auth.Accounts.{User, Role, user_role, admin_role, role_text, is_active, find}
use frankai_online.Auth.Config.{Environment}
use frankai_online.Auth.Tokens.{Cipher, equals_text, same_bytes, verify_access_token}

-- What the guards read of a request; absent headers are `none`.
pub record HttpRequest : Type 0 where
  pub method : Str
  pub cookie : Option Str
  pub csrf_token : Option Str
  pub origin : Option Str

-- A row of `admin_reauth_assurances`.
pub record Assurance : Type 0 where
  pub jti : Str
  pub user_id : Str
  pub expires_at : ℕ

-- What the process runs on: the environment, the origin of the issuer's address, the clock in
-- seconds and the database's in milliseconds, `decodeURIComponent`, of which `none` is an
-- exception, and the tables.
pub record AuthSite : Type 0 where
  pub env : Environment
  pub allowed_origin : Str
  pub now : ℕ
  pub database_now : ℕ
  pub decode : Str → Option Str
  pub users : List User
  pub assurances : List Assurance

-- `[^;]+`, from the beginning of a text
until_semicolon : Str → Str
until_semicolon [] = []
until_semicolon (c ∷ s) = let rest = until_semicolon s in if c == 59 then [] else c ∷ rest

drop_units : ℕ → Str → Str
drop_units zero s = s
drop_units (suc n) [] = []
drop_units (suc n) (c ∷ s) = drop_units n s

-- `NAME=([^;]+)`, from the beginning of a text
value_at : Str → Str → Option Str
value_at name s =
    let value = until_semicolon (drop_units (length name + 1) s) in
    if starts_with s (name ++ js "=") && not (is_empty value) then some value else none

first_of : Option Str → Option Str → Option Str
first_of none o = o
first_of (some s) o = some s

after_semicolons : Str → Str → Option Str
after_semicolons name [] = none
after_semicolons name (c ∷ s) =
    let rest = after_semicolons name s in
    if c == 59 then first_of (value_at name (trim_start s)) rest else rest

-- `/(?:^|;\s*)NAME=([^;]+)/`
unfoldable pub cookie_value : Str → Option Str → Option Str
unfolding value_at until_semicolon drop_units first_of after_semicolons
cookie_value name none = none
cookie_value name (some header) = first_of (value_at name header) (after_semicolons name header)

abbrev pub access_cookie : Str
access_cookie = js "__Host-frankai_access"

safe_methods : List Str
safe_methods = js "GET" ∷ js "HEAD" ∷ js "OPTIONS" ∷ []

origin_valid : Str → Option Str → Bool
origin_valid allowed none = true
origin_valid allowed (some origin) = is_empty origin || origin === allowed

csrf_matches : Runtime → Str → Bool → Option Str → Option Bool
csrf_matches rt header valid none = none
csrf_matches rt header valid (some cookie) = some (same_bytes rt cookie header && valid)

csrf_headers : Runtime → AuthSite → HttpRequest → Option Str → Option Str → Option Bool
csrf_headers rt site request (some cookie) (some header) =
    if is_empty header
    then some false
    else csrf_matches rt header (origin_valid site.allowed_origin request.origin)
        (site.decode cookie)
csrf_headers rt site request _ _ = some false

-- `csrfOk(request)`, for a method in capitals; `none` is an exception.
unfoldable pub csrf_ok : Runtime → AuthSite → HttpRequest → Option Bool
unfolding safe_methods origin_valid csrf_matches csrf_headers
csrf_ok rt site request =
    if str_mem request.method safe_methods
    then some true
    else csrf_headers rt site request (cookie_value (js "frankai_csrf") request.cookie)
        request.csrf_token

-- `claims.version === version`
unfoldable pub equals_count : Option Json → ℕ → Bool
equals_count (some (num n)) v =
    is_integer n && (not n.negative || n.magnitude == 0) && num_value n == v
equals_count _ v = false

-- What the claims of a token must share with the user's row.
unfoldable pub matches_user : Fields → User → Bool
matches_user claims u =
    is_active u.status
    && equals_text (get claims (js "role")) (role_text u.role)
    && equals_count (get claims (js "securityVersion")) u.security_version
    && equals_count (get claims (js "roleVersion")) u.role_version

unfoldable pub is_subject : Fields → User → Bool
is_subject claims u = equals_text (get claims (js "sub")) u.id

unfoldable pub matching : Fields → Option User → Option User
matching claims none = none
matching claims (some u) = if matches_user claims u then some u else none

-- The claims of a request's token, of the cookie's text as it is decoded.
unfoldable pub decoded_claims : Runtime → Cipher → AuthSite → Option Str → Option (Option Fields)
decoded_claims rt k site none = none
decoded_claims rt k site (some token) = some (verify_access_token rt k site.env site.now token)

unfoldable pub cookie_claims : Runtime → Cipher → AuthSite → Option Str → Option (Option Fields)
cookie_claims rt k site none = some none
cookie_claims rt k site (some cookie) = decoded_claims rt k site (site.decode cookie)

-- `accessClaims(request)`; the outer `none` is an exception.
unfoldable pub access_claims : Runtime → Cipher → AuthSite → HttpRequest → Option (Option Fields)
unfolding cookie_claims decoded_claims
access_claims rt k site request =
    cookie_claims rt k site (cookie_value access_cookie request.cookie)

-- The user of verified claims
unfoldable pub user_of_claims : AuthSite → Fields → Option User
unfolding is_subject matching
user_of_claims site claims = matching claims (find (is_subject claims) site.users)

-- What a guard does with a request: the user with the claims of the token, a refusal, or an
-- exception.
pub data Access : Type 0 where
  admitted : User → Fields → Access
  turned_away : Reply → Access
  threw : Access

abbrev pub unauthorised : Access
unauthorised = turned_away (error_reply 401 (js "Unauthorised"))

unfoldable pub user_access : Fields → Option User → Access
user_access claims none = unauthorised
user_access claims (some u) = admitted u claims

unfoldable pub claims_access : AuthSite → Option (Option Fields) → Access
claims_access site none = threw
claims_access site (some none) = unauthorised
claims_access site (some (some claims)) = user_access claims (user_of_claims site claims)

-- `authenticatedUser` and `requireUser`
unfoldable pub require_user : Runtime → Cipher → AuthSite → HttpRequest → Access
unfolding claims_access user_access
require_user rt k site request = claims_access site (access_claims rt k site request)

abbrev pub is_admin_role : Role → Bool
is_admin_role admin_role = true
is_admin_role user_role = false

unfoldable pub truthy_member : Option Json → Bool
truthy_member none = false
truthy_member (some v) = truthy v

-- `claims?.mfa`
unfoldable pub with_mfa : Fields → Bool
unfolding truthy_member
with_mfa claims = truthy_member (get claims (js "mfa"))

unfoldable pub admin_access : Access → Access
admin_access (admitted u claims) =
    if not (is_admin_role u.role)
    then turned_away (error_reply 403 (js "Forbidden"))
    else if u.mfa_required && not (with_mfa claims)
    then turned_away (error_reply 403 (js "Administrator MFA is required"))
    else admitted u claims
admin_access access = access

unfoldable pub require_admin : Runtime → Cipher → AuthSite → HttpRequest → Access
unfolding admin_access
require_admin rt k site request = admin_access (require_user rt k site request)

-- The rows that the query of `requireRecentAdmin` finds
unfoldable pub is_assured : AuthSite → Fields → User → Assurance → Bool
is_assured site claims u a =
    equals_text (get claims (js "jti")) a.jti
    && a.user_id === u.id
    && ltb site.database_now a.expires_at

unfoldable pub recent_mfa_required : Reply
recent_mfa_required = record {
  status = 401;
  body = obj (
      field (js "error") (str (js "RECENT_MFA_REQUIRED"))
        (field (js "reauthenticationRequired") (bool true) end));
}

unfoldable pub recent_access : AuthSite → Access → Access
recent_access site (admitted u claims) =
    if any (is_assured site claims u) site.assurances
    then admitted u claims
    else turned_away recent_mfa_required
recent_access site access = access

unfoldable pub require_recent_admin : Runtime → Cipher → AuthSite → HttpRequest → Access
unfolding recent_access recent_mfa_required
require_recent_admin rt k site request = recent_access site (require_admin rt k site request)
