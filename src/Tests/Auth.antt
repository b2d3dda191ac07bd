-- ===== src/Tests/Auth.antt =====
-- The account theorems at one user and one rotated session.
use frankai_online.Common.{
  ◌≤◌, Str, js, [], ◌∷◌, Bool, true, false, ◌≡◌, refl, ◌===◌, All, none, some, inl, ◌⊎◌,
}
use frankai_online.Auth.Accounts.{User, Session, AuthStore, user_role, locked, active, Status, find}
use frankai_online.Auth.Login.{post_login, LoginCall}
use frankai_online.Auth.Login.Success.{SignsIn, post_login-SignsIn}
use frankai_online.Auth.Login.Lockout.{attempts, attempts-denied, IsBarred, IsRefusedFor}
use frankai_online.Auth.Refresh.{
  RefreshCall, invalid, refresh_table, refresh_file, post_refresh, is_some,
}
use frankai_online.Auth.Refresh.Families.{live_count, post_refresh-live_le}
use frankai_online.Auth.Refresh.Replay.{IsRotated, refresh_table-refused, refresh_file-revoked}

abbrev user : Status → User
user s = record {
  id = js "u1";
  email = js "ann@example.org";
  display_name = js "Ann";
  password_hash = js "hash";
  password_hash_version = 1;
  role = user_role;
  role_version = 1;
  security_version = 1;
  status = s;
  email_verified_at = none;
  failed_login_count = 5;
  locked_until = some 100;
  last_login_at = none;
  password_changed_at = js "2026-01-01";
  mfa_required = false;
  mfa_enrolled_at = none;
  created_at = js "2026-01-01";
  updated_at = js "2026-01-01";
}

abbrev old_session : Session
old_session = record {
  id = js "s1";
  user_id = js "u1";
  token_hash = js "h1";
  token_family = js "f";
  expires_at = 1000;
  revoked_at = some 50;
  replaced_by_session_id = some (js "s2");
  created_at = js "2026-01-01";
  last_used_at = some 50;
}

abbrev new_session : Session
new_session = record old_session {
  id = js "s2";
  token_hash = js "h2";
  revoked_at = none;
  replaced_by_session_id = none;
  last_used_at = none;
}

abbrev store : Status → AuthStore
store s = record {
  users = user s ∷ [];
  sessions = old_session ∷ new_session ∷ [];
  audit_events = [];
}

abbrev login : LoginCall
login = record {
  csrf_ok = true;
  allowed = true;
  now = 10000000;
  now_text = js "2026-01-02";
  session_id = js "s3";
  refresh_hash = js "h3";
  family = js "g";
  email = js "ann@example.org";
  password = js "right";
}

abbrev verify : Str → Str → Bool
verify password hash = true

user-IsBarred : IsBarred (js "ann@example.org") (store locked)
unfolding find ◌===◌
user-IsBarred = (user locked, refl, refl)

attempts-denied_example :
    All
      (IsRefusedFor (js "ann@example.org"))
      (attempts verify (login ∷ login ∷ []) (store locked)).0
    × IsBarred (js "ann@example.org") (attempts verify (login ∷ login ∷ []) (store locked)).1
attempts-denied_example =
    attempts-denied verify (js "ann@example.org") (login ∷ login ∷ []) (store locked) user-IsBarred

abbrev call : Str → RefreshCall
call h = record {
  csrf_ok = true;
  token_hash = some h;
  now = 60;
  now_text = js "2026-01-02";
  fresh_id = js "s3";
  fresh_hash = js "h3";
}

post_refresh-live_le_example :
    live_count (js "f") (post_refresh true (call (js "h2")) (store active)).0.sessions
    ≤ live_count (js "f") (store active).sessions
post_refresh-live_le_example = post_refresh-live_le (call (js "h2")) (store active) (js "f") true

refresh_table-refused_example :
    ((refresh_table (call (js "h1")) (js "h1") (store active)).1 ≡ invalid 401)
    × ((IsRotated old_session
          × ((refresh_table (call (js "h1")) (js "h1") (store active)).0.sessions
              ≡ (store active).sessions))
        ⊎ (live_count (js "f") (refresh_table (call (js "h1")) (js "h1") (store active)).0.sessions
            ≡ 0))
unfolding find ◌===◌ is_some
refresh_table-refused_example =
    refresh_table-refused (call (js "h1")) (store active) (js "h1") old_session (user active) refl
      refl (inl refl)

refresh_file-revoked_example :
    ((refresh_file (call (js "h1")) (js "h1") (store active)).1 ≡ invalid 401)
    × (live_count (js "f") (refresh_file (call (js "h1")) (js "h1") (store active)).0.sessions ≡ 0)
unfolding find ◌===◌ is_some
refresh_file-revoked_example =
    refresh_file-revoked (call (js "h1")) (store active) (js "h1") old_session refl refl

post_login-SignsIn_example :
    SignsIn verify login (store active) (post_login verify login (store active))
post_login-SignsIn_example = post_login-SignsIn verify login (store active)
