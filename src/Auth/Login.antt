-- ===== src/Auth/Login.antt =====
-- app/api/auth/login: the handler, with the session that lib/auth/service.ts adds.
pub mod Lockout
pub mod Success
use frankai_online.Common.{
  ℕ, ◌+◌, ◌*◌, Str, js, [], ◌∷◌, ◌++◌, Bool, false, not, ◌&&◌, leb, ltb, if◌then◌else◌, trim,
  Runtime, Option, none, some, Json, str, obj, Fields, get, null,
}
use frankai_online.Auth.Accounts.{
  User, Session, AuditEvent, AuthStore, locked, is_active, find, update_found, has_email, add_audit,
}

-- What the handler meets: the outcome of the CSRF check and of the rate limit, the clock, the new
-- session's random values, and the credentials.
pub record LoginCall : Type 0 where
  pub csrf_ok : Bool
  pub allowed : Bool
  pub now : ℕ
  pub now_text : Str
  pub session_id : Str
  pub refresh_hash : Str
  pub family : Str
  pub email : Str
  pub password : Str

abbrev pub lock_ms : ℕ
lock_ms = 15 * 60 * 1000

abbrev pub refresh_ttl_seconds : ℕ
refresh_ttl_seconds = 7 * 24 * 60 * 60

pub data LoginReply : Type 0 where
  signed_in : User → LoginReply
  denied : ℕ → LoginReply

-- `user.lockedUntil && user.lockedUntil > Date.now()`
unfoldable pub is_locked_at : Option ℕ → ℕ → Bool
is_locked_at none now = false
is_locked_at (some t) now = ltb now t

-- The bookkeeping of a failed attempt.
unfoldable pub count_failure : ℕ → User → User
count_failure now u =
    let count = u.failed_login_count + 1 in
    if leb 5 count
    then record u {
      failed_login_count = count;
      locked_until = some (now + lock_ms);
      status = locked;
    }
    else record u { failed_login_count = count }

unfoldable pub count_success : Str → User → User
count_success now_text u = record u {
  failed_login_count = 0;
  locked_until = none;
  last_login_at = some now_text;
  updated_at = now_text;
}

-- `issueAuthPair(user)`
unfoldable pub new_session : LoginCall → User → Session
new_session call u = record {
  id = call.session_id;
  user_id = u.id;
  token_hash = call.refresh_hash;
  token_family = call.family;
  expires_at = call.now + refresh_ttl_seconds * 1000;
  revoked_at = none;
  replaced_by_session_id = none;
  created_at = call.now_text;
  last_used_at = none;
}

login_event : Str → Option Str → AuditEvent
login_event result actor = record {
  action = js "login";
  result = result;
  actor_user_id = actor;
  target = none;
}

module _ (verify : Str → Str → Bool) where
  -- The condition under which an attempt is accepted.
  unfoldable pub may_sign_in : LoginCall → User → Bool
  may_sign_in call u =
      verify call.password u.password_hash
      && is_active u.status
      && not (is_locked_at u.locked_until call.now)

  unfoldable pub fail_login : LoginCall → AuthStore → AuthStore
  unfolding login_event
  fail_login call store =
      let audited = add_audit (login_event (js "failure") none) store in
      record audited {
        users = update_found (has_email call.email) (count_failure call.now) store.users;
      }

  unfoldable pub pass_login : LoginCall → User → AuthStore → AuthStore
  unfolding login_event
  pass_login call u store = record {
    users = update_found (has_email call.email) (count_success call.now_text) store.users;
    sessions = store.sessions ++ new_session call u ∷ [];
    audit_events = store.audit_events ++ login_event (js "success") (some u.id) ∷ [];
  }

  login_user : LoginCall → AuthStore → Option User → AuthStore × LoginReply
  login_user call store none = (add_audit (login_event (js "failure") none) store, denied 401)
  login_user call store (some u) =
      if may_sign_in call u
      then (pass_login call u store, signed_in (count_success call.now_text u))
      else (fail_login call store, denied 401)

  unfoldable pub post_login : LoginCall → AuthStore → AuthStore × LoginReply
  unfolding login_user login_event
  post_login call store =
      if not call.csrf_ok
      then (store, denied 403)
      else if not call.allowed
      then (store, denied 429)
      else login_user call store (find (has_email call.email) store.users)

or_nothing : Option Json → Str
or_nothing (some (str s)) = s
or_nothing _ = []

text_field : Fields → Str → Str
text_field fs key = or_nothing (get fs key)

-- The credentials of a body: the address trimmed and in lower case, empty texts where they are not
-- given as texts. A body that is no JSON counts as `{}`; reading a member of `null` throws, which is
-- `none`.
unfoldable pub read_credentials : Runtime → Option Json → LoginCall → Option LoginCall
unfolding or_nothing text_field
read_credentials rt (some null) call = none
read_credentials rt (some (obj fs)) call = some (record call {
  email = rt.lower (trim (text_field fs (js "email")));
  password = text_field fs (js "password");
})
read_credentials rt _ call = some (record call { email = rt.lower (trim []); password = [] })
