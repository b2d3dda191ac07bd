-- ===== src/Auth/Refresh/Families.antt =====
-- app/api/auth/refresh: the sessions of one token family that are still live.
use frankai_online.Common.{
  ℕ, ◌≤◌, Str, List, [], ◌∷◌, ◌++◌, Bool, true, false, not, ◌&&◌, ◌≡◌, sym, inl, inr, if◌then◌else◌,
  ===_iff, ===_refl, Bool-cases, Option-cases, if_intro, arith, Option, none, some, subst,
}
use frankai_online.Auth.Accounts.{User, Session, AuthStore, find, update_found, add_audit}
use frankai_online.Auth.Refresh.Counting.{
  count, count-append, count-map_le, count-map_lt, count-update_found, count-update_found_le,
  find-append, find-holds,
}
use frankai_online.Auth.Refresh.{
  RefreshCall, RefreshReply, has_hash, has_id, has_family, is_some, is_live, may_rotate, successor,
  rotated, rotated_row, rotate_in_table, rotate_in_file, revoke_live, revoke_any, refuse_in_table,
  refuse_in_file, table_row, refresh_row, refresh_file_user, refresh_file_session, refresh_table,
  refresh_file, refresh_token, post_refresh,
}

abbrev pub live_in : Str → Session → Bool
live_in f s = has_family f s && is_live s

abbrev pub live_count : Str → List Session → ℕ
live_count f ss = count (live_in f) ss

revoke_live-live :
    (now : ℕ) (g f : Str) (s : Session)
    → live_in f (revoke_live now g s) ≡ true
    → live_in f s ≡ true
unfolding revoke_live is_some
revoke_live-live now g f s h = ground arith

revoke_any-live :
    (now : ℕ) (g f : Str) (s : Session) → live_in f (revoke_any now g s) ≡ true → live_in f s ≡ true
unfolding revoke_any is_some
revoke_any-live now g f s h = ground arith

rotated-dead : (call : RefreshCall) (f : Str) (s : Session) → live_in f (rotated call s) ≡ false
unfolding rotated is_some
rotated-dead call f s = ground arith

rotated-live :
    (call : RefreshCall) (f : Str) (s : Session)
    → live_in f (rotated call s) ≡ true
    → live_in f s ≡ true
rotated-live call f s h = let d = rotated-dead call f s in ground arith

rotated_row-live :
    (call : RefreshCall) (i f : Str) (s : Session)
    → live_in f (rotated_row call i s) ≡ true
    → live_in f s ≡ true
unfolding rotated_row
rotated_row-live call i f s h = let d = rotated-dead call f s in ground arith

rotated_row-dead :
    (call : RefreshCall) (f : Str) (s : Session) → live_in f (rotated_row call s.id s) ≡ false
unfolding rotated_row
rotated_row-dead call f s = rw (===_refl s.id) (rotated-dead call f s)

-- The successor is live in the family of the session it replaces, and in no other.
successor-live :
    (call : RefreshCall) (f : Str) (s : Session) (u : User)
    → count (live_in f) (successor call s u ∷ []) ≡ (if has_family f s then 1 else 0)
unfolding count successor is_some
successor-live call f s u = ground arith

module _ (call : RefreshCall) (store : AuthStore) (h f : Str) where
  rotate_in_table-live :
      (s : Session) (u : User)
      → find (has_hash h) store.sessions ≡ some s
      → is_live s ≡ true
      → live_count f (rotate_in_table call s u store).sessions ≤ live_count f store.sessions
  unfolding rotate_in_table
  rotate_in_table-live s u e l =
      let grown =
        count-append (live_in f) (has_hash h) (rotated call) store.sessions
          (successor call s u ∷ []) in
      let one = successor-live call f s u in
      elim (Bool-cases (has_family f s)) [
        | inr o ↦
            let le =
              count-map_le (live_in f) (has_hash h) (rotated_row call s.id)
                (rotated_row-live call s.id f) (store.sessions ++ successor call s u ∷ []) in
            ground arith
        | inl o ↦
            let lt =
              count-map_lt (live_in f) (has_hash h) (rotated_row call s.id)
                (rotated_row-live call s.id f) (store.sessions ++ successor call s u ∷ []) s
                (find-append (has_hash h) store.sessions (successor call s u ∷ []) s e)
                (ground arith) (rotated_row-dead call f s) in
            ground arith
      ]

  rotate_in_file-live :
      (s : Session) (u : User)
      → find (has_hash s.token_hash) store.sessions ≡ some s
      → is_live s ≡ true
      → live_count f (rotate_in_file call s u store).sessions ≤ live_count f store.sessions
  unfolding rotate_in_file
  rotate_in_file-live s u e l =
      let q = has_hash s.token_hash in
      let grown =
        count-append (live_in f) q (rotated call) (update_found q (rotated call) store.sessions)
          (successor call s u ∷ []) in
      let one = successor-live call f s u in
      elim (Bool-cases (has_family f s)) [
        | inr o ↦
            let le =
              count-update_found_le (live_in f) q (rotated call) (rotated-live call f)
                store.sessions in
            ground arith
        | inl o ↦
            let lt =
              count-update_found (live_in f) q (rotated call) store.sessions s e (ground arith)
                (rotated-dead call f s) in
            ground arith
      ]

module _ (call : RefreshCall) (store : AuthStore) (f : Str) where
  refuse_in_table-live :
      (s : Session)
      → live_count f (refuse_in_table call s store).sessions ≤ live_count f store.sessions
  unfolding refuse_in_table add_audit
  refuse_in_table-live s =
      let le =
        count-map_le (live_in f) (has_hash s.token_hash) (revoke_live call.now s.token_family)
          (revoke_live-live call.now s.token_family f) store.sessions in
      ground arith

  refuse_in_file-live :
      (s : Session)
      → live_count f (refuse_in_file call s store).sessions ≤ live_count f store.sessions
  unfolding refuse_in_file add_audit
  refuse_in_file-live s =
      count-map_le (live_in f) (has_hash s.token_hash) (revoke_any call.now s.token_family)
        (revoke_any-live call.now s.token_family f) store.sessions

  may_rotate-live : (s : Session) (u : User) → may_rotate call s u ≡ true → is_live s ≡ true
  unfolding may_rotate
  may_rotate-live s u e = ground arith

  refresh_row-live :
      (h : Str) (s : Session) (u : User)
      → find (has_hash h) store.sessions ≡ some s
      → live_count f (refresh_row call (some (s, u)) store).0.sessions ≤ live_count f store.sessions
  unfolding refresh_row
  refresh_row-live h s u e = elim (Bool-cases (may_rotate call s u)) [
    | inl m ↦ rw m (rotate_in_table-live call store h f s u e (may_rotate-live s u m))
    | inr m ↦ rw m (refuse_in_table-live s)
  ]

  refresh_table-live :
      (h : Str) → live_count f (refresh_table call h store).0.sessions ≤ live_count f store.sessions
  unfolding refresh_table table_row refresh_row
  refresh_table-live h = elim (Option-cases (find (has_hash h) store.sessions)) [
    | inl e ↦ rw e (ground arith)
    | inr (s, e) ↦ elim (Option-cases (find (has_id s.user_id) store.users)) [
      | inl k ↦ rw e (rw k (ground arith))
      | inr (u, k) ↦ rw e (rw k (refresh_row-live h s u e))
    ]
  ]

  refresh_file_user-live :
      (s : Session) (o : Option User)
      → find (has_hash s.token_hash) store.sessions ≡ some s
      → live_count f (refresh_file_user call s o store).0.sessions ≤ live_count f store.sessions
  unfolding refresh_file_user
  refresh_file_user-live s none e = refuse_in_file-live s
  refresh_file_user-live s (some u) e = elim (Bool-cases (may_rotate call s u)) [
    | inl m ↦ rw m (rotate_in_file-live call store s.token_hash f s u e (may_rotate-live s u m))
    | inr m ↦ rw m (refuse_in_file-live s)
  ]

  refresh_file-live :
      (h : Str) → live_count f (refresh_file call h store).0.sessions ≤ live_count f store.sessions
  unfolding refresh_file refresh_file_session
  refresh_file-live h = elim (Option-cases (find (has_hash h) store.sessions)) [
    | inl e ↦ rw e (ground arith)
    | inr (s, e) ↦
        let same : s.token_hash ≡ h =
          (===_iff s.token_hash h).0 (find-holds (has_hash h) store.sessions s e) in
        rw e (
          refresh_file_user-live s (find (has_id s.user_id) store.users)
            (subst (λ k. find (has_hash k) store.sessions ≡ some s) (sym same) e))
  ]

  refresh_token-live :
      (in_table : Bool) (o : Option Str)
      → live_count f (refresh_token in_table call o store).0.sessions ≤ live_count f store.sessions
  unfolding refresh_token
  refresh_token-live in_table none = ground arith
  refresh_token-live true (some h) = refresh_table-live h
  refresh_token-live false (some h) = refresh_file-live h

  -- In either mode, whatever the request and the store, a refresh leaves a token family with at
  -- most as many sessions that are not revoked as it had.
  pub post_refresh-live_le :
      (in_table : Bool)
      → live_count f (post_refresh in_table call store).0.sessions ≤ live_count f store.sessions
  unfolding post_refresh
  post_refresh-live_le in_table =
      if_intro
        (λ (r : AuthStore × RefreshReply).
          live_count f (r.0.sessions) ≤ live_count f store.sessions)
        (not call.csrf_ok) (ground arith) (refresh_token-live in_table call.token_hash)
