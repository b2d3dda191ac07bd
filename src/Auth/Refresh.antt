-- ===== src/Auth/Refresh.antt =====
-- app/api/auth/refresh: rotation of a session, over the table and over the file store.
pub mod Counting
pub mod Families
pub mod Replay
use frankai_online.Common.{
  ℕ, ◌+◌, ◌*◌, Str, js, [], ◌∷◌, ◌++◌, map, Bool, true, false, not, ◌&&◌, ltb, if◌then◌else◌, ◌===◌,
  Option, none, some,
}
use frankai_online.Auth.Accounts.{
  User, Session, AuditEvent, AuthStore, is_active, find, update_found, add_audit,
}
use frankai_online.Auth.Login.{refresh_ttl_seconds}

-- What the handler meets: the outcome of the CSRF check, the hash of the cookie's token (`none`
-- where there is no cookie), the clock, and the new session's random values.
pub record RefreshCall : Type 0 where
  pub csrf_ok : Bool
  pub token_hash : Option Str
  pub now : ℕ
  pub now_text : Str
  pub fresh_id : Str
  pub fresh_hash : Str

pub data RefreshReply : Type 0 where
  refreshed : User → RefreshReply
  invalid : ℕ → RefreshReply

abbrev pub has_hash : Str → Session → Bool
has_hash h s = s.token_hash === h

abbrev pub has_id : Str → User → Bool
has_id i u = u.id === i

abbrev pub has_family : Str → Session → Bool
has_family f s = s.token_family === f

unfoldable pub is_some {ℓ} : {A : Type ℓ} → Option A → Bool
is_some none = false
is_some (some _) = true

abbrev pub is_live : Session → Bool
is_live s = not (is_some s.revoked_at)

-- The condition under which a session is rotated.
unfoldable pub may_rotate : RefreshCall → Session → User → Bool
may_rotate call s u = is_live s && ltb call.now s.expires_at && is_active u.status

-- The session that takes an old one's place, in its family.
unfoldable pub successor : RefreshCall → Session → User → Session
successor call old u = record {
  id = call.fresh_id;
  user_id = u.id;
  token_hash = call.fresh_hash;
  token_family = old.token_family;
  expires_at = call.now + refresh_ttl_seconds * 1000;
  revoked_at = none;
  replaced_by_session_id = none;
  created_at = call.now_text;
  last_used_at = none;
}

unfoldable pub rotated : RefreshCall → Session → Session
rotated call s = record s {
  revoked_at = some call.now;
  last_used_at = some call.now;
  replaced_by_session_id = some call.fresh_id;
}

-- `INSERT` of the successor, then `UPDATE … WHERE id=$1`
unfoldable pub rotated_row : RefreshCall → Str → Session → Session
rotated_row call i s = if s.id === i then rotated call s else s

unfoldable pub rotate_in_table : RefreshCall → Session → User → AuthStore → AuthStore
rotate_in_table call old u store =
    let inserted = store.sessions ++ successor call old u ∷ [] in
    record store { sessions = map (rotated_row call old.id) inserted }

-- The found object is changed in place, then the successor is pushed.
unfoldable pub rotate_in_file : RefreshCall → Session → User → AuthStore → AuthStore
rotate_in_file call old u store = record store {
  sessions =
      update_found (has_hash old.token_hash) (rotated call) store.sessions
      ++ successor call old u ∷ [];
}

session_event : Str → Session → AuditEvent
session_event action s = record {
  action = action;
  result = js "failure";
  actor_user_id = some s.user_id;
  target = some s.id;
}

-- `COALESCE(revoked_at, now())`, on the sessions of the family that are not revoked yet.
unfoldable pub revoke_live : ℕ → Str → Session → Session
revoke_live now family s =
    if has_family family s && is_live s then record s { revoked_at = some now } else s

-- The file store stamps every session of the family, the revoked ones again.
unfoldable pub revoke_any : ℕ → Str → Session → Session
revoke_any now family s = if has_family family s then record s { revoked_at = some now } else s

-- The refusal inside the transaction: a revoked session that has a successor is taken for a
-- concurrent use, and its family is left alone.
unfoldable pub refuse_in_table : RefreshCall → Session → AuthStore → AuthStore
unfolding session_event
refuse_in_table call s store =
    if is_some s.revoked_at && is_some s.replaced_by_session_id
    then add_audit (session_event (js "refresh_concurrent_rejected") s) store
    else let revoked = map (revoke_live call.now s.token_family) store.sessions in
      add_audit (session_event (js "refresh_reuse_or_invalid") s)
        (record store { sessions = revoked })

unfoldable pub refuse_in_file : RefreshCall → Session → AuthStore → AuthStore
unfolding session_event
refuse_in_file call s store =
    let revoked = map (revoke_any call.now s.token_family) store.sessions in
    add_audit (session_event (js "refresh_reuse_or_invalid") s)
      (record store { sessions = revoked })

with_user : Session → Option User → Option (Session × User)
with_user s none = none
with_user s (some u) = some (s, u)

joined : AuthStore → Option Session → Option (Session × User)
joined store none = none
joined store (some s) = with_user s (find (has_id s.user_id) store.users)

-- The row of the join: the session with the hash, and its user.
unfoldable pub table_row : Str → AuthStore → Option (Session × User)
unfolding joined with_user
table_row h store = joined store (find (has_hash h) store.sessions)

unfoldable pub refresh_row :
    RefreshCall → Option (Session × User) → AuthStore → AuthStore × RefreshReply
refresh_row call none store = (store, invalid 401)
refresh_row call (some (s, u)) store =
    if may_rotate call s u
    then (rotate_in_table call s u store, refreshed u)
    else (refuse_in_table call s store, invalid 401)

unfoldable pub refresh_file_user :
    RefreshCall → Session → Option User → AuthStore → AuthStore × RefreshReply
refresh_file_user call s none store = (refuse_in_file call s store, invalid 401)
refresh_file_user call s (some u) store =
    if may_rotate call s u
    then (rotate_in_file call s u store, refreshed u)
    else (refuse_in_file call s store, invalid 401)

unfoldable pub refresh_file_session :
    RefreshCall → Option Session → AuthStore → AuthStore × RefreshReply
refresh_file_session call none store = (store, invalid 401)
refresh_file_session call (some s) store =
    refresh_file_user call s (find (has_id s.user_id) store.users) store

-- The two modes of the handler after its guards, on the token's hash.
unfoldable pub refresh_table : RefreshCall → Str → AuthStore → AuthStore × RefreshReply
refresh_table call h store = refresh_row call (table_row h store) store

unfoldable pub refresh_file : RefreshCall → Str → AuthStore → AuthStore × RefreshReply
refresh_file call h store = refresh_file_session call (find (has_hash h) store.sessions) store

refresh_token : Bool → RefreshCall → Option Str → AuthStore → AuthStore × RefreshReply
refresh_token in_table call none store = (store, invalid 401)
refresh_token in_table call (some h) store =
    if in_table then refresh_table call h store else refresh_file call h store

unfoldable pub post_refresh : Bool → RefreshCall → AuthStore → AuthStore × RefreshReply
unfolding refresh_token
post_refresh in_table call store =
    if not call.csrf_ok
    then (store, invalid 403)
    else refresh_token in_table call call.token_hash store
