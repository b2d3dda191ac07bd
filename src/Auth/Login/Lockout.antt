-- ===== src/Auth/Login/Lockout.antt =====
-- app/api/auth/login: attempts on an account that is not active, such as a locked one.
use frankai_online.Common.{
  ℕ, Str, List, [], ◌∷◌, Bool, true, false, ◌≡◌, ◌⊎◌, refl, sym, ap, ◌∙◌, inl, inr, if◌then◌else◌,
  ◌===◌, ===_iff, All, Bool-cases, arith, Option, none, some, subst,
}
use mathlib.Core.Option
use frankai_online.Auth.Accounts.{
  User, AuthStore, is_active, find, update_found, has_email, add_audit,
}
use frankai_online.Auth.Login.{
  LoginCall, LoginReply, denied, count_failure, count_success, may_sign_in, fail_login, pass_login,
  login_user, post_login,
}

-- The account that sign-in looks up under an address.
abbrev pub account : Str → AuthStore → Option User
account email store = find (has_email email) store.users

find-update_found :
    (e k : Str) (f : User → User) (us : List User)
    → ((u : User) → (f u).email ≡ u.email)
    → find (has_email e) (update_found (has_email k) f us)
      ≡ (if k === e then Option.map f (find (has_email e) us) else find (has_email e) us)
unfolding find update_found
find-update_found e k f [] h = ground arith
find-update_found e k f (u ∷ us) h =
    ground
      (arith, h u, find-update_found e k f us h, ===_iff k e, ===_iff u.email k, ===_iff u.email e)

count_failure_inactive :
    (now : ℕ) (u : User)
    → is_active u.status ≡ false
    → is_active (count_failure now u).status ≡ false
unfolding count_failure
count_failure_inactive now u h = ground arith

count_failure-email : (now : ℕ) (u : User) → (count_failure now u).email ≡ u.email
unfolding count_failure
count_failure-email now u = ground arith

count_success-email : (t : Str) (u : User) → (count_success t u).email ≡ u.email
unfolding count_success
count_success-email t u = refl

abbrev pub IsBarred : Str → AuthStore → Type 0
IsBarred email store = (u : User) × (account email store ≡ some u) × (is_active u.status ≡ false)

abbrev IsDenied : LoginReply → Type 0
IsDenied r = (code : ℕ) × (r ≡ denied code)

abbrev pub IsRefusedFor : Str → Str × LoginReply → Type 0
IsRefusedFor email r = r.0 ≡ email → IsDenied r.1

module _ (verify : Str → Str → Bool) where
  fail_login-IsBarred :
      (email : Str) (call : LoginCall) (store : AuthStore)
      → IsBarred email store
      → IsBarred email (fail_login verify call store)
  unfolding fail_login add_audit
  fail_login-IsBarred email call store (u, found, barred) =
      elim (Bool-cases (call.email === email)) [
        | inl e ↦ (
          count_failure call.now u,
          find-update_found email call.email (count_failure call.now) store.users
                (count_failure-email call.now)
              ∙ (rw e (rw found)),
          count_failure_inactive call.now u barred,
        )
        | inr e ↦ (
          u,
          find-update_found email call.email (count_failure call.now) store.users
                (count_failure-email call.now)
              ∙ (rw e found),
          barred,
        )
      ]

  pass_login-IsBarred :
      (email : Str) (call : LoginCall) (v : User) (store : AuthStore)
      → account call.email store ≡ some v
      → may_sign_in verify call v ≡ true
      → IsBarred email store
      → IsBarred email (pass_login verify call v store)
  unfolding pass_login may_sign_in
  pass_login-IsBarred email call v store h ok (u, found, barred) =
      elim (Bool-cases (call.email === email)) [
        | inl e ↦
            let same : call.email ≡ email = (===_iff call.email email).0 e in
            let again : account email store ≡ some v = rw same at h in
            absurd (
              let eq : u ≡ v = cc in
              let b = ap (λ (w : User). is_active w.status) eq in ground arith)
        | inr e ↦ (
          u,
          find-update_found email call.email (count_success call.now_text) store.users
                (count_success-email call.now_text)
              ∙ (rw e found),
          barred,
        )
      ]

  login_user-IsBarred :
      (email : Str) (call : LoginCall) (store : AuthStore) (o : Option User)
      → account call.email store ≡ o
      → IsBarred email store
      → IsBarred email (login_user verify call store o).0
  unfolding login_user add_audit
  login_user-IsBarred email call store none h b = b
  login_user-IsBarred email call store (some v) h b =
      elim (Bool-cases (may_sign_in verify call v)) [
        | inl ok ↦ rw ok (pass_login-IsBarred email call v store h ok b)
        | inr ok ↦ rw ok (fail_login-IsBarred email call store b)
      ]

  -- An attempt is turned away before the look-up, or is judged on the account found.
  post_login-cases :
      (call : LoginCall) (store : AuthStore)
      → ((code : ℕ) × (post_login verify call store ≡ (store, denied code)))
        ⊎ (post_login verify call store ≡ login_user verify call store (account call.email store))
  unfolding post_login
  post_login-cases call store = elim (Bool-cases call.csrf_ok) [
    | inr e ↦ inl (403, ground arith)
    | inl e ↦ elim (Bool-cases call.allowed) [
      | inr a ↦ inl (429, ground arith)
      | inl a ↦ inr (ground arith)
    ]
  ]

  post_login-IsBarred :
      (email : Str) (call : LoginCall) (store : AuthStore)
      → IsBarred email store
      → IsBarred email (post_login verify call store).0
  post_login-IsBarred email call store b = elim (post_login-cases call store) [
    | inl (code, e) ↦ subst (λ r. IsBarred email (r.0)) (sym e) b
    | inr e ↦
        subst (λ r. IsBarred email (r.0)) (sym e) (login_user-IsBarred email call store _ refl b)
  ]

  login_user-IsDenied :
      (call : LoginCall) (store : AuthStore) (o : Option User)
      → account call.email store ≡ o
      → IsBarred call.email store
      → IsDenied (login_user verify call store o).1
  unfolding login_user may_sign_in
  login_user-IsDenied call store none h b = (401, refl)
  login_user-IsDenied call store (some v) h (u, found, barred) =
      let eq : v ≡ u = cc in
      let no : is_active v.status ≡ false = ap (λ (w : User). is_active w.status) eq ∙ barred in
      (401, rw no (ground arith))

  post_login-IsDenied :
      (call : LoginCall) (store : AuthStore)
      → IsBarred call.email store
      → IsDenied (post_login verify call store).1
  post_login-IsDenied call store b = elim (post_login-cases call store) [
    | inl (code, e) ↦ subst (λ r. IsDenied (r.1)) (sym e) (code, refl)
    | inr e ↦ subst (λ r. IsDenied (r.1)) (sym e) (login_user-IsDenied call store _ refl b)
  ]

  -- Attempts in order, with the answer to each.
  pub attempts : List LoginCall → AuthStore → List (Str × LoginReply) × AuthStore
  attempts [] store = ([], store)
  attempts (c ∷ cs) store =
      let r = post_login verify c store in
      let rest = attempts cs r.0 in ((c.email, r.1) ∷ rest.0, rest.1)

  -- Once the account of an address is not active, locked ones included, every later attempt on the
  -- address, at whatever time and with whatever password, is denied, and after any attempts the
  -- account is still not active.
  pub attempts-denied :
      (email : Str) (cs : List LoginCall) (store : AuthStore)
      → IsBarred email store
      → All (IsRefusedFor email) (attempts cs store).0 × IsBarred email (attempts cs store).1
  unfolding attempts
  attempts-denied email [] store b = (tt, b)
  attempts-denied email (c ∷ cs) store b =
      let rest = attempts-denied email cs _ (post_login-IsBarred email c store b) in
      ((λ same. post_login-IsDenied c store (rw same b), rest.0), rest.1)
