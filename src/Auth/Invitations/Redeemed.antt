-- ===== src/Auth/Invitations/Redeemed.antt =====
-- app/api/auth/invitations/redeem: an invitation gives one account.
use frankai_online.Common.{
  Str, js, List, [], ◌∷◌, ◌++◌, Bool, true, false, not, ◌||◌, ◌≡◌, ◌⊎◌, refl, sym, inl, inr, take,
  trim, ◌===◌, ===_iff, Runtime, All, Bool-cases, if_intro, arith, Option, none, some, Json, Fields,
  get, Outcome, thrown,
}
use frankai_online.Auth.Accounts.{User, Session, find, has_email}
use frankai_online.Auth.Refresh.{is_some}
use frankai_online.Auth.Recovery.{Invitation, RecoveryTables, RecoveryCall, member_text, address}
use frankai_online.Auth.Recovery.Once.{map-All, has_status}
use frankai_online.Auth.Recovery.Resets.{on_body-intro}
use frankai_online.Auth.Invitations.{
  is_open_invitation, is_admin_invitation, invited_user, use_invitation, redeemed_tables, signed_in,
  redeem_row, redeem_fields, post_redeem, cannot_be_redeemed,
}

-- An invitation that was open has given an account of its address and its role.
pub record IsRedeemed (call : RecoveryCall) (t t' : RecoveryTables) : Type 0 where
  pub invitation : Invitation
  pub hash : Str
  pub user : User
  pub invitation_open : find (is_open_invitation call hash) t.invitations ≡ some invitation
  pub email_invited : user.email ≡ invitation.email
  pub role_invited : user.role ≡ invitation.role
  pub mfa_asked : user.mfa_required ≡ is_admin_invitation invitation.role
  pub email_new : find (has_email user.email) t.users ≡ none
  pub user_added : t'.users ≡ t.users ++ user ∷ []
  pub invitation_used : All (λ i. i.id ≡ invitation.id → is_some i.used_at ≡ true) t'.invitations

use_invitation-used :
    (call : RecoveryCall) (id : Str) (i : Invitation)
    → (use_invitation call id i).id ≡ id
    → is_some (use_invitation call id i).used_at ≡ true
unfolding use_invitation is_some
use_invitation-used call id i = elim (Bool-cases (i.id === id)) [
  | inl e ↦ (rw e (λ _. refl))
  | inr e ↦
      (rw e
        (λ same. absurd (let is : (i.id === id) ≡ true = (===_iff i.id id).1 same in ground arith)))
]

pub is_some-false : {A : Type 0} (o : Option A) → is_some o ≡ false → o ≡ none
unfolding is_some
is_some-false none h = refl
is_some-false (some a) h = absurd (ground arith)

abbrev pub RedeemedOrKept : RecoveryCall → RecoveryTables → RecoveryTables × Outcome → Type 0
RedeemedOrKept call t (t', o) = ((t' ≡ t) × (has_status 201 o ≡ false)) ⊎ IsRedeemed call t t'

redeemed_tables-IsRedeemed :
    (call : RecoveryCall) (hash email display_name password : Str) (t : RecoveryTables)
    (i : Invitation) {sessions : List Session}
    → find (is_open_invitation call hash) t.invitations ≡ some i
    → i.email ≡ email
    → find (has_email email) t.users ≡ none
    → IsRedeemed call t
        (record (redeemed_tables call (invited_user call email display_name password i.role) i t) {
          sessions = sessions;
        })
unfolding redeemed_tables invited_user
redeemed_tables-IsRedeemed call hash email display_name password t i e same new = record {
  invitation = i;
  hash = hash;
  user = invited_user call email display_name password i.role;
  invitation_open = e;
  email_invited = sym same;
  role_invited = refl;
  mfa_asked = refl;
  email_new = new;
  user_added = refl;
  invitation_used =
      map-All (λ j. j.id ≡ i.id → is_some j.used_at ≡ true) (use_invitation call i.id)
        (use_invitation-used call i.id) t.invitations;
}

signed_in-RedeemedOrKept :
    (call : RecoveryCall) (hash email display_name password : Str) (t : RecoveryTables)
    (i : Invitation)
    → find (is_open_invitation call hash) t.invitations ≡ some i
    → i.email ≡ email
    → find (has_email email) t.users ≡ none
    → RedeemedOrKept call t (
        signed_in call
          (invited_user call email display_name password i.role)
          (redeemed_tables call (invited_user call email display_name password i.role) i t))
unfolding signed_in
signed_in-RedeemedOrKept call hash email display_name password t i e same new =
    if_intro (RedeemedOrKept call t) call.configured
      (inr (redeemed_tables-IsRedeemed call hash email display_name password t i e same new))
      (inr (redeemed_tables-IsRedeemed call hash email display_name password t i e same new))

or-false : (a b : Bool) → (not a || b) ≡ false → (a ≡ true) × (b ≡ false)
or-false a b e = (ground arith, ground arith)

redeem_row-RedeemedOrKept :
    (call : RecoveryCall) (hash email display_name password : Str) (t : RecoveryTables)
    (o : Option Invitation)
    → find (is_open_invitation call hash) t.invitations ≡ o
    → RedeemedOrKept call t (redeem_row call email display_name password t o)
unfolding redeem_row cannot_be_redeemed
redeem_row-RedeemedOrKept call hash email display_name password t none e = inl (refl, refl)
redeem_row-RedeemedOrKept call hash email display_name password t (some i) e =
    elim (Bool-cases (not (i.email === email) || is_some (find (has_email email) t.users))) [
      | inl h ↦ (rw h (inl (refl, refl)))
      | inr h ↦
          let (same, new) =
            or-false (i.email === email) (is_some (find (has_email email) t.users)) h in
          (rw h (
            signed_in-RedeemedOrKept call hash email display_name password t i e
              ((===_iff i.email email).0 same)
              (is_some-false (find (has_email email) t.users) new)))
    ]

redeem_fields-RedeemedOrKept :
    (rt : Runtime) (call : RecoveryCall) (t : RecoveryTables) (fs : Fields)
    → RedeemedOrKept call t (redeem_fields rt call t fs)
unfolding redeem_fields
redeem_fields-RedeemedOrKept rt call t fs = if_intro (RedeemedOrKept call t) _ (inl (refl, refl)) (
    redeem_row-RedeemedOrKept call (call.hash_token (member_text fs (js "token")))
      (address rt (get fs (js "email"))) (take 120 (trim (member_text fs (js "displayName"))))
      (member_text fs (js "password")) t
      (find (is_open_invitation call (call.hash_token (member_text fs (js "token")))) t.invitations)
      refl)

-- A request to redeem an invitation either leaves everything as it was and is not answered with
-- status 201, or has found an invitation
-- that is not used or revoked and has not run out, and then adds one user with the invitation's
-- address, which no user had before, and with its role, asks an administrator for a second factor,
-- and uses the invitation up, also where the sign-in that follows fails.
pub post_redeem-RedeemedOrKept :
    (rt : Runtime) (call : RecoveryCall) (body : Option Json) (t : RecoveryTables)
    → RedeemedOrKept call t (post_redeem rt call body t)
unfolding post_redeem
post_redeem-RedeemedOrKept rt call body t =
    if_intro (RedeemedOrKept call t) (not call.csrf_ok) (inl (refl, refl)) (
      if_intro (RedeemedOrKept call t) (not call.allowed) (inl (refl, refl)) (
        on_body-intro (RedeemedOrKept call t) (t, thrown) (redeem_fields rt call t) body
          (inl (refl, refl)) (redeem_fields-RedeemedOrKept rt call t)))
