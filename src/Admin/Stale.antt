-- ===== src/Admin/Stale.antt =====
-- app/api/admin/users/[id] and lib/auth/http.ts: the access tokens from before a change of a role or
-- a status.
use frankai_online.Common.{
  ℕ, ◌+◌, Str, js, List, [], ◌∷◌, map, Bool, true, false, not, ◌&&◌, ◌||◌, ◌≡◌, refl, sym, ap, ◌∙◌,
  inl, inr, if◌then◌else◌, ◌===◌, ===_iff, Runtime, All, Bool-cases, arith, Option, none, some,
  Fields, get, is_integer, num_value, whole, subst,
}
use frankai_online.Common.{some-injective}
use frankai_online.Auth.Accounts.{User, Role, role_text, Status, find}
use frankai_online.Auth.Refresh.{has_id}
use frankai_online.Auth.Refresh.Counting.{find-holds}
use frankai_online.Auth.Config.{AuthConfig}
use frankai_online.Auth.Tokens.{Cipher, claims_fields, equals_text}
use frankai_online.Auth.Access.{
  HttpRequest, AuthSite, equals_count, matches_user, is_subject, matching, access_claims,
  user_of_claims, unauthorised, user_access, claims_access, require_user,
}
use frankai_online.Admin.Membership.{AdminTables}
use frankai_online.Admin.Users.{UserCall, status_text, changed_user, at_id, update_user}
use frankai_online.Admin.Distinct.{IsKeyed, IsKeyed-find, All-imply}

All-map {ℓ κ} :
    {A : Type ℓ} (P : A → Type κ) (f : A → A) (xs : List A)
    → All (λ x. P (f x)) xs
    → All P (map f xs)
All-map P f [] h = tt
All-map P f (x ∷ xs) (p, h) = (p, All-map P f xs h)

All-find :
    (P : User → Type 0) (q : User → Bool) (xs : List User) (v : User)
    → All P xs
    → find q xs ≡ some v
    → P v
unfolding find
All-find P q [] v h e = absurd (ground arith)
All-find P q (x ∷ xs) v (p, h) e = elim (Bool-cases (q x)) [
  | inl d ↦ subst P (some-injective (rw d at e)) p
  | inr d ↦ All-find P q xs v h (rw d at e)
]

-- The row of the id that was changed, in the table after the change.
changed_row :
    (i : Str) (f : User → User) (us : List User) (u : User)
    → ((v : User) → (f v).id ≡ v.id)
    → IsKeyed us
    → find (has_id i) us ≡ some u
    → All (λ v. v.id ≡ i → v ≡ f u) (map (at_id i f) us)
unfolding at_id
changed_row i f us u h keyed e =
    All-map (λ v. v.id ≡ i → v ≡ f u) (at_id i f) us
      (All-imply
        (λ v same. elim (Bool-cases (has_id i v)) [
          | inl d ↦ (rw d (λ _. ap f (same d)))
          | inr d ↦
              (rw d (λ other.
                absurd (let is : has_id i v ≡ true = (===_iff v.id i).1 other in ground arith)))
        ])
        us (IsKeyed-find i us u keyed e))

matches_user-other_version :
    (claims : Fields) (u : User)
    → equals_count (get claims (js "securityVersion")) u.security_version ≡ false
    → matches_user claims u ≡ false
unfolding matches_user
matches_user-other_version claims u h = ground arith

claims_fields-security_version :
    (c : AuthConfig) (now : ℕ) (jti : Str) (u : User) (mfa : Bool)
    → get (claims_fields c now jti u mfa) (js "securityVersion") ≡ some (whole u.security_version)
unfolding get ◌===◌
claims_fields-security_version c now jti u mfa = refl

equals_count-next : (n : ℕ) → equals_count (some (whole n)) (n + 1) ≡ false
unfolding equals_count is_integer num_value
equals_count-next n = ground arith

bumped : (a b : Bool) (n : ℕ) → (a && b) ≡ false → (if not b || not a then n + 1 else n) ≡ n + 1
bumped true true n h = absurd (ground arith)
bumped true false n h = refl
bumped false true n h = refl
bumped false false n h = refl

-- Something of the role and the status is another.
abbrev pub IsOther : User → Role → Status → Type 0
IsOther u role status =
    ((role_text u.role === role_text role) && (status_text u.status === status_text status)) ≡ false

changed_user-security_version :
    (call : UserCall) (role : Role) (status : Status) (m : Bool) (u : User)
    → IsOther u role status
    → (changed_user call role status m u).security_version ≡ u.security_version + 1
unfolding changed_user
changed_user-security_version call role status m u h =
    bumped (role_text u.role === role_text role) (status_text u.status === status_text status)
      u.security_version h

changed_user-stale :
    (call : UserCall) (role : Role) (status : Status) (m : Bool) (u : User) (c : AuthConfig)
    (now : ℕ) (jti : Str) (mfa : Bool)
    → IsOther u role status
    → matches_user (claims_fields c now jti u mfa) (changed_user call role status m u) ≡ false
changed_user-stale call role status m u c now jti mfa h =
    matches_user-other_version (claims_fields c now jti u mfa) (changed_user call role status m u) (
      ap (λ o. equals_count o (changed_user call role status m u).security_version)
        (claims_fields-security_version c now jti u mfa)
      ∙ ap (equals_count (some (whole u.security_version)))
          (changed_user-security_version call role status m u h)
      ∙ equals_count-next u.security_version)

changed_user-id :
    (call : UserCall) (role : Role) (status : Status) (m : Bool) (u : User)
    → (changed_user call role status m u).id ≡ u.id
unfolding changed_user
changed_user-id call role status m u = refl

is_subject-id :
    (c : AuthConfig) (now : ℕ) (jti : Str) (u v : User) (mfa : Bool)
    → is_subject (claims_fields c now jti u mfa) v ≡ true
    → v.id ≡ u.id
unfolding is_subject equals_text get ◌===◌
is_subject-id c now jti u v mfa h = sym ((===_iff u.id v.id).0 h)

matching-none :
    (claims : Fields) (o : Option User)
    → ((v : User) → o ≡ some v → matches_user claims v ≡ false)
    → matching claims o ≡ none
unfolding matching
matching-none claims none h = refl
matching-none claims (some v) h = let differs = h v refl in (rw differs refl)

user_of_claims-changed :
    (call : UserCall) (role : Role) (status : Status) (m : Bool) (db : AdminTables) (u : User)
    (site : AuthSite) (c : AuthConfig) (now : ℕ) (jti : Str) (mfa : Bool)
    → IsKeyed db.users
    → find (has_id call.id) db.users ≡ some u
    → IsOther u role status
    → site.users ≡ (update_user call.id (changed_user call role status m) db).users
    → user_of_claims site (claims_fields c now jti u mfa) ≡ none
unfolding user_of_claims update_user
user_of_claims-changed call role status m db u site c now jti mfa keyed e other users =
    let claims = claims_fields c now jti u mfa in
    let f = changed_user call role status m in
    let id : u.id ≡ call.id = (===_iff u.id call.id).0 (find-holds (has_id call.id) db.users u e) in
    let rows = changed_row call.id f db.users u (changed_user-id call role status m) keyed e in
    matching-none claims (find (is_subject claims) site.users) (λ v found.
      let found' = subst (λ us. find (is_subject claims) us ≡ some v) users found in
      let subject = find-holds (is_subject claims) (map (at_id call.id f) db.users) v found' in
      let same =
        All-find (λ w. w.id ≡ call.id → w ≡ f u) (is_subject claims)
          (map (at_id call.id f) db.users) v rows found'
          (is_subject-id c now jti u v mfa subject ∙ id) in
      ap (matches_user claims) same ∙ changed_user-stale call role status m u c now jti mfa other)

claims_access-none :
    (site : AuthSite) (claims : Fields)
    → user_of_claims site claims ≡ none
    → claims_access site (some (some claims)) ≡ unauthorised
unfolding claims_access user_access
claims_access-none site claims h = rw h refl

-- After an administrator's change of a user's role or status to another one, a request with an
-- access token that the user was issued before is refused with status 401, although the token
-- still verifies: the ids of the users are distinct, and the table is as the change has left it.
pub changed_user-unauthorised :
    (rt : Runtime) (k : Cipher) (call : UserCall) (role : Role) (status : Status) (m : Bool)
    (db : AdminTables) (u : User) (site : AuthSite) (request : HttpRequest) (c : AuthConfig)
    (now : ℕ) (jti : Str) (mfa : Bool)
    → IsKeyed db.users
    → find (has_id call.id) db.users ≡ some u
    → IsOther u role status
    → site.users ≡ (update_user call.id (changed_user call role status m) db).users
    → access_claims rt k site request ≡ some (some (claims_fields c now jti u mfa))
    → require_user rt k site request ≡ unauthorised
unfolding require_user
changed_user-unauthorised rt k call role status m db u site request c now jti mfa keyed e other
      users sent =
    (rw sent (
      claims_access-none site (claims_fields c now jti u mfa)
        (user_of_claims-changed call role status m db u site c now jti mfa keyed e other users)))
