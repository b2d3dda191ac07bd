-- ===== src/Auth/Tokens.antt =====
-- lib/auth/jwt.ts: issuing access tokens and verifying them.
pub mod Lifetime
use frankai_online.Common.{
  ℕ, ◌+◌, Str, js, List, [], ◌∷◌, ◌++◌, Bool, true, false, not, ◌&&◌, ◌||◌, leb, ltb, ◌==◌,
  if◌then◌else◌, length, is_empty, ◌===◌, Runtime, Option, none, some, Json, bool, num, str, obj,
  Fields, end, field, Number, get, is_integer, num_above, num_value, whole, split_on, Checked,
  accepted, refused,
}
use frankai_online.Memory.Access.{bytes_eq}
use frankai_online.Auth.Accounts.{User, role_text}
use frankai_online.Auth.Config.{Environment, AuthConfig, auth_config}

-- The cryptography that the tokens rest on: base64url texts, and the signature of a text under a
-- secret, in base64url.
pub record Cipher : Type 0 where
  pub to_base64url : Str → Str
  pub of_base64url : Str → Str
  pub sign : Str → Str → Str

-- `encode(value)`
unfoldable pub encode : Runtime → Cipher → Json → Str
encode rt k v = k.to_base64url (rt.stringify v)

abbrev pub header_fields : Fields
header_fields = field (js "alg") (str (js "HS256")) (field (js "typ") (str (js "JWT")) end)

abbrev pub claims_fields : AuthConfig → ℕ → Str → User → Bool → Fields
claims_fields c now jti user mfa = field (js "sub") (str user.id) (
    field (js "role") (str (role_text user.role)) (
      field (js "jti") (str jti) (
        field (js "iat") (whole now) (
          field (js "nbf") (whole now) (
            field (js "exp") (whole (now + c.access_ttl_seconds)) (
              field (js "iss") (str c.issuer) (
                field (js "aud") (str c.audience) (
                  field (js "typ") (str (js "access")) (
                    field (js "securityVersion") (whole user.security_version) (
                      field (js "roleVersion") (whole user.role_version)
                        (field (js "mfa") (bool mfa) end)))))))))))

abbrev pub with_signature : Cipher → Str → Str → Str
with_signature k secret body = body ++ js "." ++ k.sign body secret

-- The token under settings that have been read, with the time in seconds and a fresh id.
unfoldable pub issued_token : Runtime → Cipher → AuthConfig → ℕ → Str → User → Bool → Str
issued_token rt k c now jti user mfa = with_signature k c.access_secret (
    encode rt k (obj header_fields)
    ++ js "."
    ++ encode rt k (obj (claims_fields c now jti user mfa)))

unfoldable pub with_settings {ℓ} :
    {A : Type ℓ} → (AuthConfig → Option A) → Checked AuthConfig → Option A
with_settings f (accepted c) = f c
with_settings f (refused e) = none

-- `issueAccessToken`; `none` is an exception.
unfoldable pub issue_access_token :
    Runtime → Cipher → Environment → ℕ → Str → User → Bool → Option Str
unfolding with_settings
issue_access_token rt k env now jti user mfa =
    with_settings (λ c. some (issued_token rt k c now jti user mfa)) (auth_config rt env)

-- `/^[0-9a-f-]{36}$/i`
unfoldable pub is_hex_or_dash : ℕ → Bool
is_hex_or_dash c =
    (leb 48 c && leb c 57) || (leb 97 c && leb c 102) || (leb 65 c && leb c 70) || c == 45

unfoldable pub all_units : (ℕ → Bool) → Str → Bool
all_units p [] = true
all_units p (c ∷ s) = p c && all_units p s

unfoldable pub is_id : Str → Bool
unfolding all_units
is_id s = length s == 36 && all_units is_hex_or_dash s

-- The text that a regular expression is tested on.
unfoldable pub tested_text : Runtime → Option Json → Str
tested_text rt none = js "undefined"
tested_text rt (some (str s)) = s
tested_text rt (some v) = rt.to_text v

-- `value === text`
unfoldable pub equals_text : Option Json → Str → Bool
equals_text (some (str s)) t = s === t
equals_text _ t = false

unfoldable pub is_boolean : Option Json → Bool
is_boolean (some (bool b)) = true
is_boolean _ = false

-- `Number.isInteger(value)`
unfoldable pub integer_of : Option Json → Option Number
integer_of (some (num n)) = if is_integer n then some n else none
integer_of _ = none

-- `exp - iat > limit`, of integers of which `exp` is above 0
unfoldable pub outlives : Number → Number → ℕ → Bool
outlives exp iat limit =
    if iat.negative
    then ltb limit (num_value exp + num_value iat)
    else ltb (num_value iat + limit) (num_value exp)

-- The checks of the times, in seconds.
unfoldable pub times_hold : ℕ → ℕ → Option Number → Option Number → Option Number → Bool
times_hold now ttl (some iat) (some nbf) (some exp) =
    not (num_above iat (now + 30))
    && not (num_above nbf (now + 30))
    && num_above exp now
    && not (outlives exp iat (ttl + 30))
times_hold now ttl _ _ _ = false

unfoldable pub is_integral : Option Json → Bool
is_integral (some (num n)) = is_integer n
is_integral _ = false

unfoldable pub claims_hold : Runtime → AuthConfig → ℕ → Fields → Bool
unfolding tested_text is_boolean is_integral
claims_hold rt c now claims =
    is_boolean (get claims (js "mfa"))
    && is_id (tested_text rt (get claims (js "sub")))
    && is_id (tested_text rt (get claims (js "jti")))
    && (equals_text (get claims (js "role")) (js "USER")
        || equals_text (get claims (js "role")) (js "ADMIN"))
    && equals_text (get claims (js "typ")) (js "access")
    && equals_text (get claims (js "iss")) c.issuer
    && equals_text (get claims (js "aud")) c.audience
    && is_integral (get claims (js "securityVersion"))
    && is_integral (get claims (js "roleVersion"))
    && times_hold now c.access_ttl_seconds (integer_of (get claims (js "iat")))
        (integer_of (get claims (js "nbf"))) (integer_of (get claims (js "exp")))

unfoldable pub header_holds : Fields → Bool
header_holds h =
    equals_text (get h (js "alg")) (js "HS256") && equals_text (get h (js "typ")) (js "JWT")

unfoldable pub same_bytes : Runtime → Str → Str → Bool
same_bytes rt a b = length (rt.utf8 a) == length (rt.utf8 b) && bytes_eq (rt.utf8 a) (rt.utf8 b)

-- The header and the claims; what is no object has none of the members, or throws.
unfoldable pub verified_objects :
    Runtime → Cipher → AuthConfig → ℕ → Str → Str → Option Json → Option Json → Option Fields
verified_objects rt k c now body signature (some (obj h)) (some (obj claims)) =
    if header_holds h
      && claims_hold rt c now claims
      && same_bytes rt (k.sign body c.access_secret) signature
    then some claims
    else none
verified_objects rt k c now body signature _ _ = none

-- The parts of a token before, between and after its first two dots; further parts are not read.
unfoldable pub verified_parts : Runtime → Cipher → AuthConfig → ℕ → List Str → Option Fields
verified_parts rt k c now (header ∷ payload ∷ signature ∷ _) =
    if is_empty header || is_empty payload || is_empty signature
    then none
    else verified_objects rt k c now (header ++ js "." ++ payload) signature
        (rt.parse (k.of_base64url header)) (rt.parse (k.of_base64url payload))
verified_parts rt k c now _ = none

unfoldable pub verified_token : Runtime → Cipher → AuthConfig → ℕ → Str → Option Fields
unfolding verified_parts verified_objects
verified_token rt k c now token = verified_parts rt k c now (split_on 46 token)

-- `verifyAccessToken`: the claims; every exception is caught.
unfoldable pub verify_access_token : Runtime → Cipher → Environment → ℕ → Str → Option Fields
unfolding with_settings
verify_access_token rt k env now token =
    with_settings (λ c. verified_token rt k c now token) (auth_config rt env)
