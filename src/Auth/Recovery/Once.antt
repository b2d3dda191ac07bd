-- ===== src/Auth/Recovery/Once.antt =====
-- app/api/auth/password/reset: what a reset leaves of the user's sessions and links.
use frankai_online.Common.{
  ℕ, Str, js, List, [], ◌∷◌, map, Bool, true, false, ◌≡◌, refl, inl, inr, ◌==◌, length, ◌===◌,
  ===_iff, All, Bool-cases, Option-cases, arith, none, some, str, Fields, Outcome, replied, thrown,
  ◌+◌, ◌≤◌, ◌<◌, ◌≢◌, get,
}
use frankai_online.Auth.Accounts.{Session, find, User}
use frankai_online.Auth.Refresh.{is_some}
use frankai_online.Auth.Recovery.{
  ResetToken, RecoveryTables, RecoveryCall, use_token, is_open_token, reset_user, reset_at,
  revoke_at,
}

pub map-All {ℓ κ} :
    {A : Type ℓ} (P : A → Type κ) (f : A → A)
    → ((x : A) → P (f x))
    → (xs : List A) → All P (map f xs)
map-All P f h [] = tt
map-All P f h (x ∷ xs) = (h x, map-All P f h xs)

-- A user with the new password: its hash is that of the password, the versions are one higher and
-- the account is unlocked, and what identifies and admits the user is as it was.
pub record IsRenewed (call : RecoveryCall) (password : Str) (u v : User) : Type 0 where
  pub same_id : v.id ≡ u.id
  pub same_email : v.email ≡ u.email
  pub same_role : v.role ≡ u.role
  pub same_status : v.status ≡ u.status
  pub same_factor : v.mfa_required ≡ u.mfa_required
  pub new_hash : v.password_hash ≡ call.hash_password password
  pub next_hash_version : v.password_hash_version ≡ u.password_hash_version + 1
  pub next_security_version : v.security_version ≡ u.security_version + 1
  pub no_failures : v.failed_login_count ≡ 0
  pub unlocked : v.locked_until ≡ none

-- The users of an id have the new password, and the others are as they were.
abbrev pub Renews : RecoveryCall → Str → Str → List User → List User → Type 0
Renews call password i [] [] = Unit
Renews call password i (u ∷ us) (v ∷ vs) =
    (u.id ≡ i → IsRenewed call password u v) × ((u.id ≢ i) → v ≡ u) × Renews call password i us vs
Renews call password i _ _ = ⊥

-- A reset by a token for a user, on a request with these fields.
pub record IsReset (call : RecoveryCall) (fs : Fields) (t t' : RecoveryTables) : Type 0 where
  pub token : Str
  pub password : Str
  pub row : ResetToken
  pub token_given : get fs (js "token") ≡ some (str token)
  pub password_given : get fs (js "password") ≡ some (str password)
  pub password_long : 12 ≤ length password
  pub password_short : length password ≤ 200
  pub row_found : find (is_open_token call (call.hash_token token) t) t.reset_tokens ≡ some row
  pub row_hash : row.token_hash ≡ call.hash_token token
  pub row_unused : is_some row.used_at ≡ false
  pub row_open : call.now < row.expires_at
  pub users_renewed : Renews call password row.user_id t.users t'.users
  pub sessions_revoked :
      All (λ s. s.user_id ≡ row.user_id → is_some s.revoked_at ≡ true) t'.sessions
  pub tokens_used : All (λ r. r.user_id ≡ row.user_id → is_some r.used_at ≡ true) t'.reset_tokens

reset_at-IsRenewed :
    (call : RecoveryCall) (password i : Str) (u : User)
    → (u.id ≡ i → IsRenewed call password u (reset_at i (reset_user call password) u))
      × ((u.id ≢ i) → reset_at i (reset_user call password) u ≡ u)
unfolding reset_at reset_user
reset_at-IsRenewed call password i u = elim (Bool-cases (u.id === i)) [
  | inl e ↦ rw e (
    λ _. record {
      same_id = refl;
      same_email = refl;
      same_role = refl;
      same_status = refl;
      same_factor = refl;
      new_hash = refl;
      next_hash_version = refl;
      next_security_version = refl;
      no_failures = refl;
      unlocked = refl;
    },
    λ other. absurd (other ((===_iff u.id i).0 e)),
  )
  | inr e ↦ rw e (
    λ same. absurd (let is : (u.id === i) ≡ true = (===_iff u.id i).1 same in ground arith),
    λ _. refl,
  )
]

pub map-Renews :
    (call : RecoveryCall) (password i : Str) (us : List User)
    → Renews call password i us (map (reset_at i (reset_user call password)) us)
map-Renews call password i [] = tt
map-Renews call password i (u ∷ us) =
    let (renewed, kept) = reset_at-IsRenewed call password i u in
    (renewed, kept, map-Renews call password i us)

pub revoke_at-revoked :
    (now : ℕ) (i : Str) (s : Session)
    → (revoke_at now i s).user_id ≡ i
    → is_some (revoke_at now i s).revoked_at ≡ true
unfolding revoke_at is_some
revoke_at-revoked now i s = elim (Bool-cases (s.user_id === i)) [
  | inl e ↦ elim (Option-cases s.revoked_at) [
    | inl d ↦ (rw e (rw d (λ _. refl)))
    | inr (n, d) ↦ (rw e (rw d (λ _. refl)))
  ]
  | inr e ↦
      (rw e (λ same.
        absurd (let is : (s.user_id === i) ≡ true = (===_iff s.user_id i).1 same in ground arith)))
]

pub use_token-used :
    (now : ℕ) (i : Str) (r : ResetToken)
    → (use_token now i r).user_id ≡ i
    → is_some (use_token now i r).used_at ≡ true
unfolding use_token is_some
use_token-used now i r = elim (Bool-cases (r.user_id === i)) [
  | inl e ↦ elim (Option-cases r.used_at) [
    | inl d ↦ (rw e (rw d (λ _. refl)))
    | inr (n, d) ↦ (rw e (rw d (λ _. refl)))
  ]
  | inr e ↦
      (rw e (λ same.
        absurd (let is : (r.user_id === i) ≡ true = (===_iff r.user_id i).1 same in ground arith)))
]

abbrev pub has_status : ℕ → Outcome → Bool
has_status n (replied r) = r.status == n
has_status n thrown = false
