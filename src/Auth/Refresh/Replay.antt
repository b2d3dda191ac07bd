-- ===== src/Auth/Refresh/Replay.antt =====
-- app/api/auth/refresh: a second use of a rotated token, in either mode.
use frankai_online.Common.{
  ℕ, Str, List, [], ◌∷◌, map, Bool, true, false, ◌≡◌, refl, inl, inr, Option-cases, arith, some,
  ◌⊎◌, ◌≤◌, Bool-cases,
}
use frankai_online.Auth.Accounts.{User, Session, AuthStore, find, add_audit, is_active}
use frankai_online.Auth.Refresh.{
  RefreshCall, RefreshReply, invalid, has_hash, has_id, is_some, may_rotate, revoke_any,
  refuse_in_table, refuse_in_file, table_row, refresh_row, refresh_file_user, refresh_file_session,
  refresh_table, refresh_file, revoke_live, joined, with_user,
}
use frankai_online.Auth.Refresh.Families.{live_in, live_count}
use frankai_online.Auth.Refresh.Counting.{count}

abbrev IsRefused : RefreshReply → Type 0
IsRefused r = (code : ℕ) × (r ≡ invalid code)

count-map_none :
    {A : Type 0} (p : A → Bool) (f : A → A)
    → ((x : A) → p (f x) ≡ false)
    → (xs : List A) → count p (map f xs) ≡ 0
unfolding count
count-map_none p f h [] = refl
count-map_none p f h (x ∷ xs) = ground (arith, count-map_none p f h xs, h x)

revoke_any-dead : (now : ℕ) (f : Str) (s : Session) → live_in f (revoke_any now f s) ≡ false
unfolding revoke_any is_some
revoke_any-dead now f s = ground arith

revoke_live-dead : (now : ℕ) (f : Str) (s : Session) → live_in f (revoke_live now f s) ≡ false
unfolding revoke_live is_some
revoke_live-dead now f s = ground arith

may_rotate-refused :
    (call : RefreshCall) (s : Session) (u : User)
    → (is_some s.revoked_at ≡ true) ⊎ (s.expires_at ≤ call.now) ⊎ (is_active u.status ≡ false)
    → may_rotate call s u ≡ false
unfolding may_rotate
may_rotate-refused call s u (inl h) = ground arith
may_rotate-refused call s u (inr (inl h)) = ground arith
may_rotate-refused call s u (inr (inr h)) = ground arith

-- The session of a token that has been rotated.
abbrev pub IsRotated : Session → Type 0
IsRotated s = (is_some s.revoked_at ≡ true) × (is_some s.replaced_by_session_id ≡ true)

module _ (call : RefreshCall) (store : AuthStore) (h : Str) (s : Session) where
  -- What the refusal in the table leaves: the sessions as they are where the session has been
  -- rotated, and else no live one of its family.
  refuse_in_table-dead :
      (IsRotated s × ((refuse_in_table call s store).sessions ≡ store.sessions))
      ⊎ (live_count s.token_family (refuse_in_table call s store).sessions ≡ 0)
  unfolding refuse_in_table add_audit
  refuse_in_table-dead =
      let dead =
        count-map_none (live_in s.token_family) (revoke_live call.now s.token_family)
          (revoke_live-dead call.now s.token_family) store.sessions in
      elim (Bool-cases (is_some s.revoked_at)) [
        | inr r ↦ rw r (inr dead)
        | inl r ↦ elim (Bool-cases (is_some s.replaced_by_session_id)) [
          | inr p ↦ rw r (rw p (inr dead))
          | inl p ↦ rw r (rw p (inl ((refl, refl), refl)))
        ]
      ]

  -- In the table mode, a token whose session is revoked or has run out, or whose user is not active,
  -- is answered 401. No session of its family is live afterwards, unless the session has been
  -- rotated: then the sessions stay as they are.
  pub refresh_table-refused :
      (u : User)
      → find (has_hash h) store.sessions ≡ some s
      → find (has_id s.user_id) store.users ≡ some u
      → (is_some s.revoked_at ≡ true) ⊎ (s.expires_at ≤ call.now) ⊎ (is_active u.status ≡ false)
      → ((refresh_table call h store).1 ≡ invalid 401)
        × ((IsRotated s × ((refresh_table call h store).0.sessions ≡ store.sessions))
            ⊎ (live_count s.token_family (refresh_table call h store).0.sessions ≡ 0))
  unfolding refresh_table table_row joined with_user refresh_row
  refresh_table-refused u e k dead =
      let refused = may_rotate-refused call s u dead in
      (rw e (rw k (rw refused refl)), rw e (rw k (rw refused refuse_in_table-dead)))

  -- In the file mode, a token whose session is revoked, presented again, is answered 401, and no
  -- session of its family is live afterwards.
  pub refresh_file-revoked :
      find (has_hash h) store.sessions ≡ some s
      → is_some s.revoked_at ≡ true
      → ((refresh_file call h store).1 ≡ invalid 401)
        × (live_count s.token_family (refresh_file call h store).0.sessions ≡ 0)
  unfolding refresh_file refresh_file_session refresh_file_user may_rotate refuse_in_file add_audit
  refresh_file-revoked e r =
      let dead =
        count-map_none (live_in s.token_family) (revoke_any call.now s.token_family)
          (revoke_any-dead call.now s.token_family) store.sessions in
      elim (Option-cases (find (has_id s.user_id) store.users)) [
        | inl k ↦ (rw e (rw k refl), rw e (rw k dead))
        | inr (u, k) ↦ (rw e (rw k (rw r refl)), rw e (rw k (rw r dead)))
      ]
