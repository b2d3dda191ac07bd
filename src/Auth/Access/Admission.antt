-- ===== src/Auth/Access/Admission.antt =====
-- lib/auth/http.ts: what the guard of the administration routes has made sure of.
use frankai_online.Common.{
  Str, Bool, true, false, not, ◌&&◌, ◌≡◌, refl, ap, inl, inr, if◌then◌else◌, any, Runtime,
  Bool-cases, arith, Option, none, some, Fields, Reply, subst,
}
use frankai_online.Common.{some-injective}
use frankai_online.Auth.Accounts.{User, find}
use frankai_online.Auth.Tokens.{Cipher, verify_access_token}
use frankai_online.Auth.Access.{
  HttpRequest, AuthSite, cookie_value, access_cookie, matches_user, is_subject, matching,
  cookie_claims, decoded_claims, access_claims, user_of_claims, Access, admitted, turned_away,
  threw, user_access, claims_access, require_user, is_admin_role, with_mfa, admin_access,
  require_admin, is_assured, recent_access, require_recent_admin,
}

-- A user whom the guard lets in, with the claims of the token.
pub record IsRecentAdmin (rt : Runtime) (k : Cipher) (site : AuthSite) (request : HttpRequest)
    (u : User) (claims : Fields) : Type 0 where
  pub cookie : Str
  pub token : Str
  pub cookie_sent : cookie_value access_cookie request.cookie ≡ some cookie
  pub token_decoded : site.decode cookie ≡ some token
  pub token_verified : verify_access_token rt k site.env site.now token ≡ some claims
  pub user_found : find (is_subject claims) site.users ≡ some u
  pub user_matches : matches_user claims u ≡ true
  pub user_administers : is_admin_role u.role ≡ true
  pub mfa_passed : u.mfa_required ≡ true → with_mfa claims ≡ true
  pub recently_assured : any (is_assured site claims u) site.assurances ≡ true

-- The two fields of an admission.
admitted_user : Access → Option User
admitted_user (admitted u claims) = some u
admitted_user _ = none

admitted_claims : Access → Option Fields
admitted_claims (admitted u claims) = some claims
admitted_claims _ = none

admitted-injective : (u v : User) (c d : Fields) → admitted u c ≡ admitted v d → (u ≡ v) × (c ≡ d)
unfolding admitted_user admitted_claims
admitted-injective u v c d e =
    (some-injective (ap admitted_user e), some-injective (ap admitted_claims e))

if-admitted :
    (b : Bool) (u v : User) (c d : Fields) (r : Reply)
    → (if b then admitted u c else turned_away r) ≡ admitted v d
    → (b ≡ true) × (admitted u c ≡ admitted v d)
if-admitted true u v c d r e = (refl, e)
if-admitted false u v c d r e = absurd (let k = ap admitted_user e in ground arith)

if-turned_away :
    (b : Bool) (a : Access) (v : User) (d : Fields) (r : Reply)
    → (if b then turned_away r else a) ≡ admitted v d
    → (b ≡ false) × (a ≡ admitted v d)
if-turned_away true a v d r e = absurd (let k = ap admitted_user e in ground arith)
if-turned_away false a v d r e = (refl, e)

not-not : (b : Bool) → not b ≡ false → b ≡ true
not-not b e = ground arith

implied : (a b : Bool) → (a && not b) ≡ false → a ≡ true → b ≡ true
implied a b e h = ground arith

recent_access-admitted :
    (site : AuthSite) (a : Access) (u : User) (c : Fields)
    → recent_access site a ≡ admitted u c
    → (a ≡ admitted u c) × (any (is_assured site c u) site.assurances ≡ true)
unfolding recent_access
recent_access-admitted site (admitted v d) u c e =
    let (found, same) = if-admitted _ v u d c _ e in
    let (eu, ec) = admitted-injective v u d c same in
    (
      same,
      subst (λ (w : User). any (is_assured site c w) site.assurances ≡ true) eu
          (subst (λ (f : Fields). any (is_assured site f v) site.assurances ≡ true) ec found),
    )
recent_access-admitted site (turned_away r) u c e =
    absurd (let k = ap admitted_user e in ground arith)
recent_access-admitted site threw u c e = absurd (let k = ap admitted_user e in ground arith)

admin_access-admitted :
    (a : Access) (u : User) (c : Fields)
    → admin_access a ≡ admitted u c
    → (a ≡ admitted u c)
      × ((is_admin_role u.role ≡ true) × (u.mfa_required ≡ true → with_mfa c ≡ true))
unfolding admin_access
admin_access-admitted (admitted v d) u c e =
    let (admin, e1) = if-turned_away _ _ u c _ e in
    let (mfa, same) = if-turned_away _ _ u c _ e1 in
    let (eu, ec) = admitted-injective v u d c same in
    (
      same,
      (
        subst (λ (w : User). is_admin_role w.role ≡ true) eu (not-not (is_admin_role v.role) admin),
        subst (λ (w : User). w.mfa_required ≡ true → with_mfa c ≡ true) eu
            (subst (λ (f : Fields). v.mfa_required ≡ true → with_mfa f ≡ true) ec
              (implied v.mfa_required (with_mfa d) mfa)),
      ),
    )
admin_access-admitted (turned_away r) u c e = absurd (let k = ap admitted_user e in ground arith)
admin_access-admitted threw u c e = absurd (let k = ap admitted_user e in ground arith)

matching-some :
    (c : Fields) (o : Option User) (u : User)
    → matching c o ≡ some u
    → (o ≡ some u) × (matches_user c u ≡ true)
unfolding matching
matching-some c none u e = absurd (ground arith)
matching-some c (some v) u e = elim (Bool-cases (matches_user c v)) [
  | inl h ↦
      let same = some-injective (rw h at e) in
      (ap some same, subst (λ (w : User). matches_user c w ≡ true) same h)
  | inr h ↦ absurd (let none_given = (rw h at e) in ground arith)
]

user_access-admitted :
    (c d : Fields) (o : Option User) (u : User)
    → user_access c o ≡ admitted u d
    → (c ≡ d) × (o ≡ some u)
unfolding user_access
user_access-admitted c d none u e = absurd (let k = ap admitted_user e in ground arith)
user_access-admitted c d (some v) u e =
    let (eu, ec) = admitted-injective v u c d e in (ec, ap some eu)

claims_access-admitted :
    (site : AuthSite) (o : Option (Option Fields)) (u : User) (d : Fields)
    → claims_access site o ≡ admitted u d
    → (o ≡ some (some d)) × ((find (is_subject d) site.users ≡ some u) × (matches_user d u ≡ true))
unfolding claims_access user_of_claims
claims_access-admitted site none u d e = absurd (let k = ap admitted_user e in ground arith)
claims_access-admitted site (some none) u d e = absurd (let k = ap admitted_user e in ground arith)
claims_access-admitted site (some (some c)) u d e =
    let (ec, eo) = user_access-admitted c d (matching c (find (is_subject c) site.users)) u e in
    let (found, matches) = matching-some c (find (is_subject c) site.users) u eo in
    (
      ap (λ f. some (some f)) ec,
      (
        subst (λ (f : Fields). find (is_subject f) site.users ≡ some u) ec found,
        subst (λ (f : Fields). matches_user f u ≡ true) ec matches,
      ),
    )

decoded_claims-some :
    (rt : Runtime) (k : Cipher) (site : AuthSite) (o : Option Str) (d : Fields)
    → decoded_claims rt k site o ≡ some (some d)
    → (token : Str) × ((o ≡ some token)
        × (verify_access_token rt k site.env site.now token ≡ some d))
unfolding decoded_claims
decoded_claims-some rt k site none d e = absurd (ground arith)
decoded_claims-some rt k site (some token) d e = (token, (refl, some-injective e))

cookie_claims-some :
    (rt : Runtime) (k : Cipher) (site : AuthSite) (o : Option Str) (d : Fields)
    → cookie_claims rt k site o ≡ some (some d)
    → (cookie : Str) × ((o ≡ some cookie)
        × ((token : Str) × ((site.decode cookie ≡ some token)
              × (verify_access_token rt k site.env site.now token ≡ some d))))
unfolding cookie_claims
cookie_claims-some rt k site none d e =
    absurd (let inner : none ≡ some d = some-injective e in ground arith)
cookie_claims-some rt k site (some cookie) d e =
    (cookie, (refl, decoded_claims-some rt k site (site.decode cookie) d e))

-- Whom the guard of the administration routes lets in: the request's cookie holds a token that
-- verifies now, its subject is a user of the store who is active and an administrator, the token
-- has the user's role and both versions, it records a second factor where the user needs one, and
-- a reauthentication of that user with that token has not run out.
pub require_recent_admin-IsRecentAdmin :
    (rt : Runtime) (k : Cipher) (site : AuthSite) (request : HttpRequest) (u : User)
    (claims : Fields)
    → require_recent_admin rt k site request ≡ admitted u claims
    → IsRecentAdmin rt k site request u claims
unfolding require_recent_admin require_admin require_user access_claims
require_recent_admin-IsRecentAdmin rt k site request u claims e =
    let (e1, assured) = recent_access-admitted site _ u claims e in
    let (e2, (admin, mfa)) = admin_access-admitted _ u claims e1 in
    let (e3, (found, matches)) = claims_access-admitted site _ u claims e2 in
    let (cookie, (sent, (token, (decoded, verified)))) = cookie_claims-some rt k site _ claims e3 in
    record {
      cookie = cookie;
      token = token;
      cookie_sent = sent;
      token_decoded = decoded;
      token_verified = verified;
      user_found = found;
      user_matches = matches;
      user_administers = admin;
      mfa_passed = mfa;
      recently_assured = assured;
    }
