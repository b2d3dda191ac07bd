-- ===== src/Auth/Login/Success.antt =====
-- app/api/auth/login: the attempts that open a session.
use frankai_online.Common.{
  ℕ, Str, [], ◌∷◌, ◌++◌, Bool, true, false, ◌≡◌, ◌⊎◌, refl, inl, inr, Bool-cases, arith, Option,
  none, some, subst, List, ◌+◌, ◌*◌,
}
use frankai_online.Auth.Accounts.{User, AuthStore, is_active, find, has_email, add_audit, Session}
use frankai_online.Auth.Login.{
  LoginCall, LoginReply, signed_in, denied, is_locked_at, count_success, new_session, may_sign_in,
  fail_login, pass_login, login_user, post_login,
}

-- Nothing but the bookkeeping changes and the attempt is denied, or one session is opened.
module _ (verify : Str → Str → Bool) (call : LoginCall) (store : AuthStore) where
  abbrev IsTurnedAway : AuthStore × LoginReply → Type 0
  IsTurnedAway r = (code : ℕ) × (r.1 ≡ denied code) × (r.0.sessions ≡ store.sessions)

  -- There is one session more: of the account, live from now for seven days, under the hash of the
  -- token that the answer sets.
  abbrev OpensFor : User → List Session → Type 0
  OpensFor u sessions =
      (s : Session) × (sessions ≡ store.sessions ++ s ∷ [])
      × (s.user_id ≡ u.id)
      × (s.token_hash ≡ call.refresh_hash)
      × (s.revoked_at ≡ none)
      × (s.expires_at ≡ call.now + 7 * 24 * 60 * 60 * 1000)

  abbrev IsSignedIn : AuthStore × LoginReply → Type 0
  IsSignedIn r =
      (u : User) × (call.csrf_ok ≡ true)
      × (call.allowed ≡ true)
      × (find (has_email call.email) store.users ≡ some u)
      × (verify call.password u.password_hash ≡ true)
      × (is_active u.status ≡ true)
      × (is_locked_at u.locked_until call.now ≡ false)
      × OpensFor u r.0.sessions
      × (r.1 ≡ signed_in (count_success call.now_text u))

  abbrev pub SignsIn : AuthStore × LoginReply → Type 0
  SignsIn r = IsTurnedAway r ⊎ IsSignedIn r

  login_user-SignsIn :
      (o : Option User)
      → call.csrf_ok ≡ true
      → call.allowed ≡ true
      → find (has_email call.email) store.users ≡ o
      → SignsIn (login_user verify call store o)
  unfolding login_user add_audit fail_login pass_login may_sign_in new_session
  login_user-SignsIn none c a e = inl (401, refl, refl)
  login_user-SignsIn (some u) c a e = elim (Bool-cases (may_sign_in verify call u)) [
    | inr m ↦ rw m (inl (401, refl, refl))
    | inl m ↦ rw m (
        inr (
          u,
          c,
          a,
          e,
          ground arith,
          ground arith,
          ground arith,
          (new_session call u, refl, refl, refl, refl, refl),
          refl,
        ))
  ]

  -- An attempt is denied and leaves the sessions as they are; or it came with a CSRF token and
  -- within the rate limit, the first account of its address is active and not locked and has that
  -- password, and exactly one session is added, which is of that account, not revoked, and live for
  -- seven days.
  pub post_login-SignsIn : SignsIn (post_login verify call store)
  unfolding post_login
  post_login-SignsIn = elim (Bool-cases call.csrf_ok) [
    | inr c ↦
        subst SignsIn
          (let e : (store, denied 403) ≡ post_login verify call store = ground arith in e)
          (inl (403, refl, refl))
    | inl c ↦ elim (Bool-cases call.allowed) [
      | inr a ↦
          subst SignsIn
            (let e : (store, denied 429) ≡ post_login verify call store = ground arith in e)
            (inl (429, refl, refl))
      | inl a ↦
          let judged : login_user verify call store (find (has_email call.email) store.users)
              ≡ post_login verify call store =
            ground arith in
          subst SignsIn judged (login_user-SignsIn _ c a refl)
    ]
  ]
