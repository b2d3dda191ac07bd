-- ===== src/Auth/Recovery.antt =====
-- app/api/auth/password and app/api/auth/invitations/redeem: asking for and using the links that
-- reset a password, and redeeming invitations.
pub mod Once
pub mod Resets
use frankai_online.Common.{
  ℕ, ◌+◌, ◌*◌, Str, js, List, [], ◌∷◌, ◌++◌, map, Bool, true, not, ◌&&◌, ◌||◌, ltb, if◌then◌else◌,
  length, is_empty, trim, ◌===◌, Runtime, Option, none, some, Json, null, bool, str, obj, Fields,
  end, field, get, error_reply, Outcome, replied, thrown,
}
use frankai_online.Auth.Accounts.{User, Session, AuditEvent, Role, find, has_email}
use frankai_online.Auth.Refresh.{has_id, is_some}

pub record ResetToken : Type 0 where
  pub user_id : Str
  pub token_hash : Str
  pub expires_at : ℕ
  pub used_at : Option ℕ

pub record Invitation : Type 0 where
  pub id : Str
  pub token_hash : Str
  pub email : Str
  pub role : Role
  pub expires_at : ℕ
  pub used_at : Option ℕ
  pub revoked_at : Option ℕ

pub record Mail : Type 0 where
  pub recipient : Str
  pub template : Str
  pub token : Option Str

pub record RecoveryTables : Type 0 where
  pub users : List User
  pub sessions : List Session
  pub invitations : List Invitation
  pub reset_tokens : List ResetToken
  pub outbox : List Mail
  pub audit_events : List AuditEvent

-- What a request meets: the outcomes of the CSRF check and the rate limit with its wait, the hashes,
-- fresh random texts, the clock, whether a mail is queued without an exception, and whether the
-- settings are read without one.
pub record RecoveryCall : Type 0 where
  pub csrf_ok : Bool
  pub allowed : Bool
  pub hash_token : Str → Str
  pub hash_password : Str → Str
  pub fresh_id : Str
  pub fresh_token : Str
  pub fresh_session : Str
  pub fresh_family : Str
  pub now : ℕ
  pub now_text : Str
  pub mail_queued : Bool
  pub configured : Bool

-- A body that is no JSON counts as `{}`; reading a member of `null` throws.
unfoldable pub on_body {ℓ} : {A : Type ℓ} → A → (Fields → A) → Option Json → A
on_body threw f (some null) = threw
on_body threw f (some (obj fs)) = f fs
on_body threw f _ = f end

-- `typeof value === 'string' ? value : ''`
unfoldable pub text_or_blank : Option Json → Str
text_or_blank (some (str s)) = s
text_or_blank _ = []

unfoldable pub member_text : Fields → Str → Str
unfolding text_or_blank
member_text fs key = text_or_blank (get fs key)

unfoldable pub normalise_email : Runtime → Str → Str
normalise_email rt email = rt.lower (trim email)

abbrev pub logged : RecoveryTables → Str → Str → Option Str → RecoveryTables
logged t action actor target = record t {
  audit_events =
      t.audit_events
      ++ record {
        action = action;
        result = js "success";
        actor_user_id = some actor;
        target = target;
      }
        ∷ [];
}

-- `UPDATE password_reset_tokens SET used_at=now() WHERE user_id=$1 AND used_at IS NULL`
unfoldable pub use_token : ℕ → Str → ResetToken → ResetToken
use_token now i r =
    if (r.user_id === i) && not (is_some r.used_at) then record r { used_at = some now } else r

forgot_user : RecoveryCall → RecoveryTables → User → RecoveryTables × Outcome
forgot_user call t u =
    let tokens =
      map (use_token call.now u.id) t.reset_tokens
      ++ record {
        user_id = u.id;
        token_hash = call.hash_token call.fresh_token;
        expires_at = call.now + 30 * 60 * 1000;
        used_at = none;
      }
        ∷ [] in
    let t' = record t { reset_tokens = tokens } in
    if call.mail_queued
    then (
      logged
          (record t' {
            outbox =
                t.outbox
                ++ record {
                  recipient = u.email;
                  template = js "password_reset";
                  token = some call.fresh_token;
                }
                  ∷ [];
          })
          (js "password_reset_requested") u.id none,
      replied (record { status = 200; body = obj (field (js "ok") (bool true) end) }),
    )
    else (t', thrown)

forgot_found : RecoveryCall → RecoveryTables → Option User → RecoveryTables × Outcome
forgot_found call t none =
    (t, replied (record { status = 200; body = obj (field (js "ok") (bool true) end) }))
forgot_found call t (some u) = forgot_user call t u

-- `typeof email === 'string' ? normaliseEmail(email) : ''`
unfoldable pub address : Runtime → Option Json → Str
address rt (some (str s)) = normalise_email rt s
address rt _ = []

forgot_fields : Runtime → RecoveryCall → RecoveryTables → Fields → RecoveryTables × Outcome
forgot_fields rt call t fs =
    forgot_found call t (find (has_email (address rt (get fs (js "email")))) t.users)

-- `POST /api/auth/password/forgot`: the answer does not tell whether there is a user.
unfoldable pub post_forgot :
    Runtime → RecoveryCall → Option Json → RecoveryTables → RecoveryTables × Outcome
unfolding on_body forgot_fields forgot_found forgot_user
post_forgot rt call body t =
    if not call.allowed
    then (t, replied (record { status = 200; body = obj (field (js "ok") (bool true) end) }))
    else on_body (t, thrown) (forgot_fields rt call t) body

-- The condition of the query for a token, which joins the user's row.
unfoldable pub is_open_token : RecoveryCall → Str → RecoveryTables → ResetToken → Bool
is_open_token call hash t r =
    r.token_hash === hash
    && not (is_some r.used_at)
    && ltb call.now r.expires_at
    && is_some (find (has_id r.user_id) t.users)

unfoldable pub reset_user : RecoveryCall → Str → User → User
reset_user call password u = record u {
  password_hash = call.hash_password password;
  password_hash_version = u.password_hash_version + 1;
  security_version = u.security_version + 1;
  failed_login_count = 0;
  locked_until = none;
  password_changed_at = call.now_text;
  updated_at = call.now_text;
}

unfoldable pub reset_at : Str → (User → User) → User → User
reset_at i f u = if has_id i u then f u else u

unfoldable pub revoke_at : ℕ → Str → Session → Session
revoke_at now i s =
    if (s.user_id === i) && not (is_some s.revoked_at)
    then record s { revoked_at = some now }
    else s

-- The transaction for the row of a token.
unfoldable pub reset_tables : RecoveryCall → Str → Str → RecoveryTables → RecoveryTables
reset_tables call password i t = record t {
  users = map (reset_at i (reset_user call password)) t.users;
  reset_tokens = map (use_token call.now i) t.reset_tokens;
  sessions = map (revoke_at call.now i) t.sessions;
}

abbrev email_of : Option User → Str
email_of none = []
email_of (some u) = u.email

unfoldable pub reset_found :
    RecoveryCall → Str → RecoveryTables → Option ResetToken → RecoveryTables × Outcome
reset_found call password t none =
    (t, replied (error_reply 400 (js "Invalid or expired password reset request.")))
reset_found call password t (some r) =
    let t' = reset_tables call password r.user_id t in
    if call.mail_queued
    then (
      logged
          (record t' {
            outbox =
                t.outbox
                ++ record {
                  recipient = email_of (find (has_id r.user_id) t.users);
                  template = js "password_changed";
                  token = none;
                }
                  ∷ [];
          })
          (js "password_reset_completed") r.user_id none,
      replied (record { status = 200; body = obj (field (js "ok") (bool true) end) }),
    )
    else (t', thrown)

unfoldable pub reset_fields : RecoveryCall → RecoveryTables → Fields → RecoveryTables × Outcome
reset_fields call t fs =
    let token = member_text fs (js "token") in
    let password = member_text fs (js "password") in
    if is_empty token || ltb (length password) 12 || ltb 200 (length password)
    then (t, replied (error_reply 400 (js "Invalid password reset request.")))
    else reset_found call password t
        (find (is_open_token call (call.hash_token token) t) t.reset_tokens)

-- `POST /api/auth/password/reset`
unfoldable pub post_reset : RecoveryCall → Option Json → RecoveryTables → RecoveryTables × Outcome
unfolding on_body reset_fields reset_found
post_reset call body t =
    if not call.allowed
    then (t, replied (error_reply 429 (js "Too many requests.")))
    else on_body (t, thrown) (reset_fields call t) body
