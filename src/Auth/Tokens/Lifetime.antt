-- ===== src/Auth/Tokens/Lifetime.antt =====
-- lib/auth/jwt.ts: the times at which an issued token is verified.
use frankai_online.Common.{
  ℕ, ◌+◌, ◌≤◌, Str, js, [], ◌∷◌, ◌++◌, Bool, true, false, ◌&&◌, ◌||◌, ◌≡◌, refl, ap, ◌∙◌, ltb, ◌==◌,
  if◌then◌else◌, is_empty, ◌===◌, ===_refl, Runtime, arith, Option, none, some, Json, str, obj,
  Fields, get, is_integer, num_above, num_value, whole, split_on, add_to_first, accepted, subst,
}
use frankai_online.Common.{append_assoc, some-injective}
use frankai_online.Auth.Accounts.{User, role_text, Role, user_role, admin_role}
use frankai_online.Auth.Config.{Environment, AuthConfig, auth_config}
use frankai_online.Auth.Tokens.{
  Cipher, encode, header_fields, claims_fields, issued_token, with_settings, issue_access_token,
  is_id, tested_text, equals_text, is_boolean, integer_of, outlives, times_hold, is_integral,
  claims_hold, header_holds, same_bytes, verified_objects, verified_parts, verified_token,
  verify_access_token,
}

-- A text without a dot.
abbrev pub NoDot : Str → Type 0
NoDot [] = Unit
NoDot (c ∷ s) = ((c == 46) ≡ false) × NoDot s

-- What the code relies on of the encoding of a value: base64url texts have no dots, and decoding
-- and parsing give the value back.
pub record IsEncoded (rt : Runtime) (k : Cipher) (v : Json) : Type 0 where
  pub no_dot : NoDot (encode rt k v)
  pub not_empty : is_empty (encode rt k v) ≡ false
  pub reads_back : rt.parse (k.of_base64url (encode rt k v)) ≡ some v

-- What the code relies on of signatures: they are base64url texts.
pub record IsSigning (k : Cipher) : Type 0 where
  pub no_dot : (body secret : Str) → NoDot (k.sign body secret)
  pub not_empty : (body secret : Str) → is_empty (k.sign body secret) ≡ false

split_on-last : (s : Str) → NoDot s → split_on 46 s ≡ s ∷ []
unfolding split_on add_to_first
split_on-last [] h = refl
split_on-last (c ∷ s) (p, h) = rw (split_on-last s h) (rw p refl)

split_on-part : (s t : Str) → NoDot s → split_on 46 (s ++ js "." ++ t) ≡ s ∷ split_on 46 t
unfolding split_on add_to_first
split_on-part [] t h = refl
split_on-part (c ∷ s) t (p, h) = rw (split_on-part s t h) (rw p refl)

split_on-token :
    (h p s : Str)
    → NoDot h
    → NoDot p
    → NoDot s
    → split_on 46 ((h ++ js "." ++ p) ++ js "." ++ s) ≡ h ∷ p ∷ s ∷ []
split_on-token h p s a b c =
    ap (λ x. split_on 46 (x ++ s)) (append_assoc (h ++ js ".") p (js "."))
    ∙ ap (split_on 46) (append_assoc (h ++ js ".") (p ++ js ".") s)
    ∙ split_on-part h (p ++ js "." ++ s) a
    ∙ ap (◌∷◌ h) (split_on-part p s b ∙ ap (◌∷◌ p) (split_on-last s c))

same_bytes_refl : (rt : Runtime) (s : Str) → same_bytes rt s s ≡ true
unfolding same_bytes
same_bytes_refl rt s = ground (arith, ===_refl (rt.utf8 s))

equals_text_refl : (s : Str) → equals_text (some (str s)) s ≡ true
unfolding equals_text
equals_text_refl s = ===_refl s

is_integer-whole : (n : ℕ) → is_integral (some (whole n)) ≡ true
unfolding is_integral is_integer
is_integer-whole n = ground arith

role_holds :
    (r : Role)
    → (equals_text (some (str (role_text r))) (js "USER")
        || equals_text (some (str (role_text r))) (js "ADMIN"))
      ≡ true
unfolding equals_text ◌===◌
role_holds user_role = refl
role_holds admin_role = refl

times_hold-issued :
    (now later ttl : ℕ)
    → now ≤ later + 30
    → times_hold later ttl
        (integer_of (some (whole now)))
        (integer_of (some (whole now)))
        (integer_of (some (whole (now + ttl))))
      ≡ ltb later (now + ttl)
unfolding integer_of is_integer times_hold num_above num_value outlives
times_hold-issued now later ttl h = ground arith

claims_hold-issued :
    (rt : Runtime) (c : AuthConfig) (now later : ℕ) (jti : Str) (user : User) (mfa : Bool)
    → is_id user.id ≡ true
    → is_id jti ≡ true
    → now ≤ later + 30
    → claims_hold rt c later (claims_fields c now jti user mfa)
      ≡ ltb later (now + c.access_ttl_seconds)
unfolding claims_hold get ◌===◌ tested_text is_boolean
claims_hold-issued rt c now later jti user mfa sub id h =
    let role = role_holds user.role in
    let issuer = equals_text_refl c.issuer in
    let audience = equals_text_refl c.audience in
    let access = equals_text_refl (js "access") in
    let security = is_integer-whole user.security_version in
    let version = is_integer-whole user.role_version in
    let times = times_hold-issued now later c.access_ttl_seconds h in
    (rw sub (
      rw id
        (rw role (rw access (rw issuer (rw audience (rw security (rw version (rw times refl)))))))))

and_true_if :
    (b : Bool) (fs : Fields)
    → (if true && b && true then some fs else none) ≡ (if b then some fs else none)
and_true_if true fs = refl
and_true_if false fs = refl

verified_objects-issued :
    (rt : Runtime) (k : Cipher) (c : AuthConfig) (later : ℕ) (body : Str) (claims : Fields)
    (h p : Option Json) (holds : Bool)
    → h ≡ some (obj header_fields)
    → p ≡ some (obj claims)
    → claims_hold rt c later claims ≡ holds
    → verified_objects rt k c later body (k.sign body c.access_secret) h p
      ≡ (if holds then some claims else none)
unfolding verified_objects header_holds equals_text get ◌===◌
verified_objects-issued rt k c later body claims h p holds eh ep e =
    let same = same_bytes_refl rt (k.sign body c.access_secret) in
    (rw eh (rw ep (rw e (rw same (and_true_if holds claims)))))

verified_parts-issued :
    (rt : Runtime) (k : Cipher) (c : AuthConfig) (later : ℕ) (header payload : Str)
    (claims : Fields) (holds : Bool)
    → is_empty header ≡ false
    → is_empty payload ≡ false
    → is_empty (k.sign (header ++ js "." ++ payload) c.access_secret) ≡ false
    → rt.parse (k.of_base64url header) ≡ some (obj header_fields)
    → rt.parse (k.of_base64url payload) ≡ some (obj claims)
    → claims_hold rt c later claims ≡ holds
    → verified_parts rt k c later
        (header ∷ payload ∷ k.sign (header ++ js "." ++ payload) c.access_secret ∷ [])
      ≡ (if holds then some claims else none)
unfolding verified_parts
verified_parts-issued rt k c later header payload claims holds a b d eh ep e =
    (rw a (
      rw b (
        rw d (
          verified_objects-issued rt k c later (header ++ js "." ++ payload) claims _ _ holds eh ep
            e))))

verified_token-issued :
    (rt : Runtime) (k : Cipher) (c : AuthConfig) (now later : ℕ) (jti : Str) (user : User)
    (mfa : Bool)
    → IsSigning k
    → IsEncoded rt k (obj header_fields)
    → IsEncoded rt k (obj (claims_fields c now jti user mfa))
    → is_id user.id ≡ true
    → is_id jti ≡ true
    → now ≤ later + 30
    → verified_token rt k c later (issued_token rt k c now jti user mfa) ≡ (
        if ltb later (now + c.access_ttl_seconds)
        then some (claims_fields c now jti user mfa)
        else none)
unfolding verified_token issued_token
verified_token-issued rt k c now later jti user mfa signing header claims sub id h =
    let head = encode rt k (obj header_fields) in
    let payload = encode rt k (obj (claims_fields c now jti user mfa)) in
    let body = head ++ js "." ++ payload in
    ap (verified_parts rt k c later) (
      split_on-token head payload (k.sign body c.access_secret) header.no_dot claims.no_dot
        (signing.no_dot body c.access_secret))
    ∙ verified_parts-issued rt k c later head payload (claims_fields c now jti user mfa)
        (ltb later (now + c.access_ttl_seconds)) header.not_empty claims.not_empty
        (signing.not_empty body c.access_secret) header.reads_back claims.reads_back
        (claims_hold-issued rt c now later jti user mfa sub id h)

-- An access token of a user with a well-formed id, issued under settings that are read without an
-- exception, is verified under the same settings exactly while its lifetime lasts, and with the
-- claims it was issued with: before `now` plus the lifetime at all times, from then on never. The
-- verifier's clock is at most 30 seconds behind, the token's id is well-formed, base64url texts have
-- no dot and are not empty, and decoding and parsing give the header and the claims back.
pub verify_access_token-issued :
    (rt : Runtime) (k : Cipher) (env : Environment) (c : AuthConfig) (now later : ℕ) (jti : Str)
    (user : User) (mfa : Bool) (token : Str)
    → auth_config rt env ≡ accepted c
    → issue_access_token rt k env now jti user mfa ≡ some token
    → IsSigning k
    → IsEncoded rt k (obj header_fields)
    → IsEncoded rt k (obj (claims_fields c now jti user mfa))
    → is_id user.id ≡ true
    → is_id jti ≡ true
    → now ≤ later + 30
    → verify_access_token rt k env later token ≡ (
        if ltb later (now + c.access_ttl_seconds)
        then some (claims_fields c now jti user mfa)
        else none)
unfolding issue_access_token verify_access_token with_settings
verify_access_token-issued rt k env c now later jti user mfa token read issued signing header claims
      sub id h =
    let same : issued_token rt k c now jti user mfa ≡ token = some-injective (rw read at issued) in
    (rw read (
      subst
        (λ (t : Str). verified_token rt k c later t ≡ (
          if ltb later (now + c.access_ttl_seconds)
          then some (claims_fields c now jti user mfa)
          else none))
        same (verified_token-issued rt k c now later jti user mfa signing header claims sub id h)))
