-- ===== src/Auth/Recovery/Resets.antt =====
-- app/api/auth/password/reset: what an answer to a request tells of the tables.
use frankai_online.Common.{
  Str, js, List, [], ◌∷◌, true, false, not, ◌||◌, ◌≡◌, ◌⊎◌, refl, inl, inr, ltb, length, is_empty,
  ◌===◌, ===_iff, Bool-cases, if_intro, arith, Option, none, some, Json, null, bool, num, str, arr,
  obj, Fields, end, Outcome, thrown, ◌≤◌, ◌<◌, get,
}
use frankai_online.Auth.Accounts.{AuditEvent, find}
use frankai_online.Auth.Refresh.{is_some}
use frankai_online.Auth.Recovery.{
  Mail, ResetToken, RecoveryTables, RecoveryCall, on_body, member_text, use_token, is_open_token,
  revoke_at, reset_tables, reset_found, reset_fields, post_reset, text_or_blank,
}
use frankai_online.Auth.Refresh.Counting.{find-holds}
use frankai_online.Auth.Recovery.Once.{
  IsReset, has_status, map-All, map-Renews, revoke_at-revoked, use_token-used,
}

-- Either nothing has changed, and the answer tells so, or a reset has taken place.
abbrev pub ResetOrKept :
    RecoveryCall → Option Json → RecoveryTables → RecoveryTables × Outcome → Type 0
ResetOrKept call body t (t', o) =
    ((t' ≡ t) × (has_status 200 o ≡ false))
    ⊎ ((fs : Fields) × (body ≡ some (obj fs)) × IsReset call fs t t')

-- What `reset_found` is called with.
record IsAsked (call : RecoveryCall) (fs : Fields) (token password : Str) : Type 0 where
  token_given : get fs (js "token") ≡ some (str token)
  password_given : get fs (js "password") ≡ some (str password)
  password_long : 12 ≤ length password
  password_short : length password ≤ 200

open_token :
    (call : RecoveryCall) (hash : Str) (t : RecoveryTables) (r : ResetToken)
    → is_open_token call hash t r ≡ true
    → (r.token_hash ≡ hash) × (is_some r.used_at ≡ false) × (call.now < r.expires_at)
unfolding is_open_token
open_token call hash t r h =
    let same : (r.token_hash === hash) ≡ true = ground arith in
    ((===_iff r.token_hash hash).0 same, ground arith, ground arith)

found-IsReset :
    (call : RecoveryCall) (fs : Fields) (token password : Str) (t : RecoveryTables) (r : ResetToken)
    {outbox : List Mail} {audit_events : List AuditEvent}
    → IsAsked call fs token password
    → find (is_open_token call (call.hash_token token) t) t.reset_tokens ≡ some r
    → IsReset call fs t (record (reset_tables call password r.user_id t) {
      outbox = outbox;
      audit_events = audit_events;
    })
unfolding reset_tables
found-IsReset call fs token password t r asked e =
    let hash = call.hash_token token in
    let (same, unused, later) =
      open_token call hash t r (find-holds (is_open_token call hash t) t.reset_tokens r e) in
    record {
      token = token;
      password = password;
      row = r;
      token_given = asked.token_given;
      password_given = asked.password_given;
      password_long = asked.password_long;
      password_short = asked.password_short;
      row_found = e;
      row_hash = same;
      row_unused = unused;
      row_open = later;
      users_renewed = map-Renews call password r.user_id t.users;
      sessions_revoked =
          map-All (λ s. s.user_id ≡ r.user_id → is_some s.revoked_at ≡ true)
            (revoke_at call.now r.user_id) (revoke_at-revoked call.now r.user_id) t.sessions;
      tokens_used =
          map-All (λ k. k.user_id ≡ r.user_id → is_some k.used_at ≡ true)
            (use_token call.now r.user_id) (use_token-used call.now r.user_id) t.reset_tokens;
    }

reset_found-ResetOrKept :
    (call : RecoveryCall) (fs : Fields) (token password : Str) (t : RecoveryTables)
    (o : Option ResetToken)
    → IsAsked call fs token password
    → find (is_open_token call (call.hash_token token) t) t.reset_tokens ≡ o
    → ResetOrKept call (some (obj fs)) t (reset_found call password t o)
unfolding reset_found reset_tables
reset_found-ResetOrKept call fs token password t none asked e = inl (refl, refl)
reset_found-ResetOrKept call fs token password t (some r) asked e =
    if_intro (ResetOrKept call (some (obj fs)) t) call.mail_queued
      (inr (fs, refl, found-IsReset call fs token password t r asked e))
      (inr (fs, refl, found-IsReset call fs token password t r asked e))

text_or_blank-given :
    (o : Option Json) → is_empty (text_or_blank o) ≡ false → o ≡ some (str (text_or_blank o))
unfolding text_or_blank
text_or_blank-given (some (str s)) h = refl
text_or_blank-given none h = absurd (ground arith)
text_or_blank-given (some null) h = absurd (ground arith)
text_or_blank-given (some (bool b)) h = absurd (ground arith)
text_or_blank-given (some (num n)) h = absurd (ground arith)
text_or_blank-given (some (arr vs)) h = absurd (ground arith)
text_or_blank-given (some (obj fs)) h = absurd (ground arith)

long-filled : (s : Str) → 12 ≤ length s → is_empty s ≡ false
long-filled [] h = absurd (omega arith)
long-filled (c ∷ s) h = refl

fields-IsAsked :
    (call : RecoveryCall) (fs : Fields)
    → (is_empty (member_text fs (js "token"))
        || ltb (length (member_text fs (js "password"))) 12
        || ltb 200 (length (member_text fs (js "password"))))
      ≡ false
    → IsAsked call fs (member_text fs (js "token")) (member_text fs (js "password"))
unfolding member_text
fields-IsAsked call fs e =
    let token = text_or_blank (get fs (js "token")) in
    let password = text_or_blank (get fs (js "password")) in
    let filled : is_empty token ≡ false = ground arith in
    let long : 12 ≤ length password = ground arith in
    record {
      token_given = text_or_blank-given (get fs (js "token")) filled;
      password_given = text_or_blank-given (get fs (js "password")) (long-filled password long);
      password_long = long;
      password_short = ground arith;
    }

reset_fields-ResetOrKept :
    (call : RecoveryCall) (t : RecoveryTables) (fs : Fields)
    → ResetOrKept call (some (obj fs)) t (reset_fields call t fs)
unfolding reset_fields
reset_fields-ResetOrKept call t fs =
    let token = member_text fs (js "token") in
    let password = member_text fs (js "password") in
    elim (Bool-cases (is_empty token || ltb (length password) 12 || ltb 200 (length password))) [
      | inl e ↦ (rw e (inl (refl, refl)))
      | inr e ↦
          (rw e (
            reset_found-ResetOrKept call fs token password t
              (find (is_open_token call (call.hash_token token) t) t.reset_tokens)
              (fields-IsAsked call fs e) refl))
    ]

-- A body without fields is refused.
blank-ResetOrKept :
    (call : RecoveryCall) (body : Option Json) (t : RecoveryTables)
    → ResetOrKept call body t (reset_fields call t end)
unfolding reset_fields member_text text_or_blank get
blank-ResetOrKept call body t = inl (refl, refl)

body-ResetOrKept :
    (call : RecoveryCall) (body : Option Json) (t : RecoveryTables)
    → ResetOrKept call body t (on_body (t, thrown) (reset_fields call t) body)
unfolding on_body
body-ResetOrKept call none t = blank-ResetOrKept call none t
body-ResetOrKept call (some null) t = inl (refl, refl)
body-ResetOrKept call (some (bool b)) t = blank-ResetOrKept call _ t
body-ResetOrKept call (some (num n)) t = blank-ResetOrKept call _ t
body-ResetOrKept call (some (str s)) t = blank-ResetOrKept call _ t
body-ResetOrKept call (some (arr vs)) t = blank-ResetOrKept call _ t
body-ResetOrKept call (some (obj fs)) t = reset_fields-ResetOrKept call t fs

pub on_body-intro {ℓ} :
    {A : Type 0} (P : A → Type ℓ) (a : A) (f : Fields → A) (body : Option Json)
    → P a
    → ((fs : Fields) → P (f fs))
    → P (on_body a f body)
unfolding on_body
on_body-intro P a f none h k = k end
on_body-intro P a f (some null) h k = h
on_body-intro P a f (some (bool b)) h k = k end
on_body-intro P a f (some (num n)) h k = k end
on_body-intro P a f (some (str s)) h k = k end
on_body-intro P a f (some (arr vs)) h k = k end
on_body-intro P a f (some (obj fs)) h k = k fs

-- A request to reset a password either leaves everything as it was and is not answered with status
-- 200, or has a body with a password of 12 to 200 characters and a token, whose hash is that of a
-- row that is not used and has not run out. Then the user of that row, and no other, has the hash of
-- that password and versions that are one higher, all of the user's sessions are revoked, and all of
-- the user's tokens are used up, also where the mail that tells of it cannot be queued.
pub post_reset-ResetOrKept :
    (call : RecoveryCall) (body : Option Json) (t : RecoveryTables)
    → ResetOrKept call body t (post_reset call body t)
unfolding post_reset
post_reset-ResetOrKept call body t =
    if_intro (ResetOrKept call body t) (not call.allowed) (inl (refl, refl))
      (body-ResetOrKept call body t)
