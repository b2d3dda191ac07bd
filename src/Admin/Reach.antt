-- ===== src/Admin/Reach.antt =====
-- app/api/admin/users/[id] and its unlock, reset-mfa and revoke-sessions: sequences of requests,
-- with time that passes between them.
use frankai_online.Common.{ℕ, ◌≤◌, List, true, ◌≡◌, inl, inr, Runtime, Option-cases, arith}
use frankai_online.Auth.Accounts.{User}
use frankai_online.Auth.Login.{is_locked_at}
use frankai_online.Admin.Membership.{
  AdminTables, RecoveryCode, is_recoverable, recoverable_administrator_count,
}
use frankai_online.Admin.Users.{UserCall}
use frankai_online.Admin.Distinct.{count_mono_id}
use frankai_online.Admin.Recoverable.{IsGoverned}
use frankai_online.Admin.Routes.{AccountRequest, handle, handle-IsGoverned}

-- One step of the site: time passes, or an account route answers a request.
pub data Step (rt : Runtime) : ℕ → AdminTables → ℕ → AdminTables → Type 0 where
  later : (now now' : ℕ) (db : AdminTables) → now ≤ now' → Step rt now db now' db
  answered :
      (call : UserCall) (req : AccountRequest) (db : AdminTables)
      → Step rt call.now db call.now (handle rt call req db).0

pub data Reach (rt : Runtime) (start : ℕ) (db : AdminTables) : ℕ → AdminTables → Type 0 where
  here : Reach rt start db start db
  next :
      {now now' : ℕ} {t u : AdminTables}
      → Reach rt start db now t
      → Step rt now t now' u
      → Reach rt start db now' u

recoverable_later :
    (now now' : ℕ) (codes : List RecoveryCode) (u : User)
    → now ≤ now'
    → is_recoverable now codes u ≡ true
    → is_recoverable now' codes u ≡ true
unfolding is_recoverable is_locked_at
recoverable_later now now' codes u le e = elim (Option-cases u.locked_until) [
  | inl d ↦ let e' = (rw d at e) in (rw d e')
  | inr (t, d) ↦ let e' = (rw d at e) in (rw d (ground arith))
]

recoverable_count_later :
    (now now' : ℕ) (db : AdminTables)
    → now ≤ now'
    → recoverable_administrator_count now db ≤ recoverable_administrator_count now' db
unfolding recoverable_administrator_count
recoverable_count_later now now' db le =
    count_mono_id (is_recoverable now db.recovery_codes) (is_recoverable now' db.recovery_codes)
      (λ u. recoverable_later now now' db.recovery_codes u le) db.users

Step-IsGoverned :
    (rt : Runtime) {now now' : ℕ} {t u : AdminTables}
    → Step rt now t now' u
    → IsGoverned now t
    → IsGoverned now' u
Step-IsGoverned rt (later now now' db le) (k, n) =
    (k, let more = recoverable_count_later now now' db le in omega arith)
Step-IsGoverned rt (answered call req db) h = handle-IsGoverned rt call req db h

-- From tables whose user ids are distinct and that have an administrator who can recover the site
-- (active, verified, enrolled, not locked, with an unused recovery code), every sequence of account
-- requests, with time that passes between them, leads to tables of which the same holds.
pub Reach-IsGoverned :
    (rt : Runtime) {start : ℕ} {db : AdminTables} {now : ℕ} {u : AdminTables}
    → Reach rt start db now u
    → IsGoverned start db
    → IsGoverned now u
Reach-IsGoverned rt here h = h
Reach-IsGoverned rt (next r step) h = Step-IsGoverned rt step (Reach-IsGoverned rt r h)
