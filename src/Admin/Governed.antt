-- ===== src/Admin/Governed.antt =====
-- The transactions of the account routes, one by one: each keeps the site governed.
use frankai_online.Common.{
  Str, js, List, map, Bool, false, not, ◌&&◌, ◌||◌, ◌≡◌, refl, ltb, str_mem, if_intro, arith, some,
}
use frankai_online.Auth.Accounts.{User, Role, Status, find}
use frankai_online.Auth.Refresh.{has_id}
use frankai_online.Auth.Refresh.Counting.{count}
use frankai_online.Admin.Membership.{AdminTables, is_admin, recoverable_administrator_count}
use frankai_online.Admin.Users.{
  UserCall, Requested, changed_user, at_id, update_user, change_user, without_user, delete_user,
  unlocked, unlock_user, without_mfa, without_codes, reset_mfa, revoke_sessions, or_current,
  finish_change, change_row, delete_row, unlock_row, reset_row, live_of, revoke_of, revoke_row,
}
use frankai_online.Admin.Distinct.{IsKeyed, map-IsKeyed, filter-IsKeyed}
use frankai_online.Admin.Recoverable.{
  IsGoverned, Commits, on_user-Commits, conclude-IsGoverned, update_elsewhere, reset_elsewhere,
  delete_elsewhere, at_id-id,
}

or-false : (a b : Bool) → (a || b) ≡ false → a ≡ false
or-false a b e = ground arith

update-IsKeyed :
    (i : Str) (f : User → User)
    → ((u : User) → (f u).id ≡ u.id)
    → (us : List User) → IsKeyed us
    → IsKeyed (map (at_id i f) us)
update-IsKeyed i f h us k = map-IsKeyed (at_id i f) (at_id-id i f h) us k

changed_user-id :
    (call : UserCall) (role : Role) (status : Status) (m : Bool) (u : User)
    → (changed_user call role status m u).id ≡ u.id
unfolding changed_user
changed_user-id call role status m u = refl

finish_change-IsGoverned :
    (call : UserCall) (role : Role) (status : Status) (m : Bool) (db : AdminTables) (s : User)
    → IsGoverned call.now db
    → find (has_id call.id) db.users ≡ some s
    → Commits
        (IsGoverned call.now)
        (finish_change call role s (update_user call.id (changed_user call role status m) db))
unfolding finish_change update_user
finish_change-IsGoverned call role status m db s (k, n) e =
    let f = changed_user call role status m in
    on_user-Commits _ (IsGoverned call.now) _
      (find (has_id call.id) (map (at_id call.id f) db.users))
      (λ updated _.
        conclude-IsGoverned call.now (is_admin s.role || is_admin role) updated call.actor
          (js "admin_user_changed") (js "success") call.id (update_user call.id f db)
          (update-IsKeyed call.id f (changed_user-id call role status m) db.users k)
          (λ d.
            let kept =
              update_elsewhere call.now call.id f db s k e
                (or-false (is_admin s.role) (is_admin role) d) in
            omega arith))

pub change_user-IsGoverned :
    (call : UserCall) (role : Requested Role) (status : Requested Status) (db : AdminTables)
    → IsGoverned call.now db
    → Commits (IsGoverned call.now) (change_user call role status db)
unfolding change_user change_row
change_user-IsGoverned call role status db h =
    on_user-Commits _ (IsGoverned call.now) _ (find (has_id call.id) db.users) (λ s e.
      finish_change-IsGoverned call (or_current role s.role) (or_current status s.status) _ db s h
        e)

pub delete_user-IsGoverned :
    (call : UserCall) (db : AdminTables)
    → IsGoverned call.now db
    → Commits (IsGoverned call.now) (delete_user call db)
unfolding delete_user delete_row without_user
delete_user-IsGoverned call db (k, n) =
    on_user-Commits _ (IsGoverned call.now) _ (find (has_id call.id) db.users) (λ s e.
      if_intro (Commits (IsGoverned call.now)) (str_mem call.id db.creators) tt (
        conclude-IsGoverned call.now (is_admin s.role) tt call.actor (js "admin_user_deleted")
          (js "success") call.id (without_user call.id db)
          (filter-IsKeyed (λ u. not (has_id call.id u)) db.users k)
          (λ d. let kept = delete_elsewhere call.now call.id db s k e d in omega arith)))

unlocked-id : (call : UserCall) (u : User) → (unlocked call u).id ≡ u.id
unfolding unlocked
unlocked-id call u = refl

pub unlock_user-IsGoverned :
    (call : UserCall) (db : AdminTables)
    → IsGoverned call.now db
    → Commits (IsGoverned call.now) (unlock_user call db)
unfolding unlock_user unlock_row update_user
unlock_user-IsGoverned call db (k, n) =
    on_user-Commits _ (IsGoverned call.now) _ (find (has_id call.id) db.users) (λ s e.
      conclude-IsGoverned call.now (is_admin s.role) tt call.actor (js "admin_user_unlocked")
        (js "success") call.id (update_user call.id (unlocked call) db)
        (update-IsKeyed call.id (unlocked call) (unlocked-id call) db.users k)
        (λ d.
          let kept = update_elsewhere call.now call.id (unlocked call) db s k e d in omega arith))

without_mfa-id : (call : UserCall) (u : User) → (without_mfa call u).id ≡ u.id
unfolding without_mfa
without_mfa-id call u = refl

pub reset_mfa-IsGoverned :
    (call : UserCall) (db : AdminTables)
    → IsGoverned call.now db
    → Commits (IsGoverned call.now) (reset_mfa call db)
unfolding reset_mfa reset_row update_user without_codes
reset_mfa-IsGoverned call db (k, n) =
    on_user-Commits _ (IsGoverned call.now) _ (find (has_id call.id) db.users) (λ s e.
      conclude-IsGoverned call.now (is_admin s.role) tt call.actor (js "admin_mfa_reset")
        (js "success") call.id (update_user call.id (without_mfa call) (without_codes call.id db))
        (update-IsKeyed call.id (without_mfa call) (without_mfa-id call) db.users k)
        (λ d.
          let kept = reset_elsewhere call.now call.id (without_mfa call) db s k e d in omega arith))

pub revoke_sessions-IsGoverned :
    (call : UserCall) (db : AdminTables)
    → IsGoverned call.now db
    → Commits (IsGoverned call.now) (revoke_sessions call db)
unfolding revoke_sessions revoke_row recoverable_administrator_count
revoke_sessions-IsGoverned call db (k, n) =
    on_user-Commits _ (IsGoverned call.now) _ (find (has_id call.id) db.users) (λ s e.
      if_intro (Commits (IsGoverned call.now))
        (is_admin s.role && ltb (recoverable_administrator_count call.now db) 2) tt
        (conclude-IsGoverned call.now false (count (live_of call.id) db.sessions) call.actor
          (js "admin_sessions_revoked") (js "success") call.id
          (record db { sessions = map (revoke_of call) db.sessions }) k (λ d. n)))
