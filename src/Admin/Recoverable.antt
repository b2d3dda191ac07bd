-- ===== src/Admin/Recoverable.antt =====
-- The four changes of an account, as transactions: what a commit keeps of the administrators that
-- can recover the site.
use frankai_online.Common.{
  ℕ, zero, suc, ◌≤◌, ◌<◌, Str, List, [], ◌∷◌, ◌++◌, Bool, true, false, not, ◌&&◌, ◌≡◌, refl, sym,
  ap, ◌∙◌, inl, inr, leb, if◌then◌else◌, filter, any, ◌===◌, ===_iff, All, Bool-cases, if_intro,
  arith, Option, none, some,
}
use frankai_online.Auth.Accounts.{User, find}
use frankai_online.Auth.Refresh.{has_id}
use frankai_online.Admin.Membership.{
  AdminTables, RecoveryCode, Fault, final_administrator, Transaction, committed, raised,
  other_fault, allows, is_user, is_admin, unused_by, is_recoverable,
  recoverable_administrator_count, audit_in_transaction, conclude,
}
use frankai_online.Admin.Registry.{audit_definition}
use frankai_online.Admin.Users.{at_id, update_user, on_user, without_user, without_codes}
use frankai_online.Admin.Distinct.{IsKeyed, IsKeyed-find, All-imply, count_mono, count_mono_filter}

-- The ids are distinct, and an administrator can recover the site.
abbrev pub IsGoverned : ℕ → AdminTables → Type 0
IsGoverned now db = IsKeyed db.users × (0 < recoverable_administrator_count now db)

-- What holds of the tables that a transaction commits.
abbrev pub Commits {ℓ} : {A : Type ℓ} → (AdminTables → Type 0) → Transaction A → Type 0
Commits P (committed a db) = P db
Commits P (raised fault left) = Unit

pub on_user-Commits :
    {A : Type 0} (db : AdminTables) (P : AdminTables → Type 0) (act : User → Transaction A)
    (o : Option User)
    → ((u : User) → o ≡ some u → Commits P (act u))
    → Commits P (on_user db act o)
unfolding on_user
on_user-Commits db P act none h = tt
on_user-Commits db P act (some u) h = h u refl

pub check-Commits :
    {A : Type 0} (P : AdminTables → Type 0) (fault : Fault) (a : A) (db left : AdminTables)
    (c : Bool)
    → (c ≡ false → P db)
    → Commits P (if c then raised fault left else committed a db)
check-Commits P fault a db left true h = tt
check-Commits P fault a db left false h = h refl

abbrev pub IfSome : (AdminTables → Type 0) → Option AdminTables → Type 0
IfSome P none = Unit
IfSome P (some db) = P db

pub conclude-Commits :
    {A : Type 0} (P : AdminTables → Type 0) (now : ℕ) (needs : Bool) (a : A)
    (audited : Option AdminTables) (db : AdminTables)
    → ((needs && leb (recoverable_administrator_count now db) 0) ≡ false → IfSome P audited)
    → Commits P (conclude now needs a audited db)
unfolding conclude
conclude-Commits {A = A} P now needs a none db h =
    if_intro {A = Transaction A} (Commits P)
      (needs && leb (recoverable_administrator_count now db) 0) {x = raised final_administrator db}
      {y = raised other_fault db} tt tt
conclude-Commits P now needs a (some audited) db h =
    check-Commits P final_administrator a audited db
      (needs && leb (recoverable_administrator_count now db) 0) h

audit-IsGoverned :
    (now : ℕ) (actor action result target : Str) (db : AdminTables)
    → IsGoverned now db
    → IfSome (IsGoverned now) (audit_in_transaction actor action result target db)
unfolding audit_in_transaction recoverable_administrator_count
audit-IsGoverned now actor action result target db h =
    if_intro (IfSome (IsGoverned now)) (allows (audit_definition action) result && is_user actor db)
      {x = some (record db {
        audit_events =
            db.audit_events
            ++ record {
              action = action;
              result = result;
              actor_user_id = some actor;
              target = some target;
            }
              ∷ [];
      })}
      {y = none} h tt

recoverable_of_check :
    (needs : Bool) (n : ℕ) → (needs ≡ false → 0 < n) → (needs && leb n 0) ≡ false → 0 < n
recoverable_of_check needs zero h e = elim (Bool-cases needs) [
  | inl d ↦ absurd (ground arith)
  | inr d ↦ h d
]
recoverable_of_check needs (suc n) h e = omega arith

-- A transaction that ends with the check, or changes nothing that the check reads, keeps the site
-- governed.
pub conclude-IsGoverned :
    {A : Type 0} (now : ℕ) (needs : Bool) (a : A) (actor action result target : Str)
    (db : AdminTables)
    → IsKeyed db.users
    → (needs ≡ false → 0 < recoverable_administrator_count now db)
    → Commits
        (IsGoverned now)
        (conclude now needs a (audit_in_transaction actor action result target db) db)
conclude-IsGoverned now needs a actor action result target db k h =
    conclude-Commits (IsGoverned now) now needs a
      (audit_in_transaction actor action result target db) db
      (λ e.
        audit-IsGoverned now actor action result target db
          (k, recoverable_of_check needs (recoverable_administrator_count now db) h e))

recoverable-is_admin :
    (now : ℕ) (codes : List RecoveryCode) (u : User)
    → is_recoverable now codes u ≡ true
    → is_admin u.role ≡ true
unfolding is_recoverable
recoverable-is_admin now codes u e = ground arith

-- The row of a user who is no administrator is none that the count sees.
elsewhere :
    (now : ℕ) (i : Str) (db : AdminTables) (s : User)
    → IsKeyed db.users
    → find (has_id i) db.users ≡ some s
    → is_admin s.role ≡ false
    → All (λ u. is_recoverable now db.recovery_codes u ≡ true → has_id i u ≡ false) db.users
elsewhere now i db s k e d =
    All-imply
      (λ u same r. elim (Bool-cases (has_id i u)) [
        | inl c ↦
            let es : is_admin u.role ≡ is_admin s.role =
              ap (λ (w : User). is_admin w.role) (same c) in
            let er = recoverable-is_admin now db.recovery_codes u r in absurd (ground arith)
        | inr c ↦ c
      ])
      db.users (IsKeyed-find i db.users s k e)

pub at_id-id :
    (i : Str) (f : User → User)
    → ((u : User) → (f u).id ≡ u.id)
    → (u : User) → (at_id i f u).id ≡ u.id
unfolding at_id
at_id-id i f h u = if_intro (λ (w : User). w.id ≡ u.id) (has_id i u) (h u) refl

at_id_elsewhere : (i : Str) (f : User → User) (u : User) → has_id i u ≡ false → at_id i f u ≡ u
unfolding at_id
at_id_elsewhere i f u e = rw e refl

not-true : (b : Bool) → not b ≡ true → b ≡ false
not-true b e = ground arith

-- Another user's codes are not among those that a reset deletes.
any-unused_elsewhere :
    (i j : Str) (codes : List RecoveryCode)
    → (j === i) ≡ false
    → any (unused_by j) codes ≡ true
    → any (unused_by j) (filter (λ (c : RecoveryCode). not (c.user_id === i)) codes) ≡ true
any-unused_elsewhere i j [] d e = ground arith
any-unused_elsewhere i j (c ∷ codes) d e = elim (Bool-cases (c.user_id === i)) [
  | inl same ↦
      let other : (c.user_id === j) ≡ false = elim (Bool-cases (c.user_id === j)) [
        | inl q ↦
            let ci = (===_iff c.user_id i).0 same in
            let cj = (===_iff c.user_id j).0 q in
            let ji : (j === i) ≡ true = (===_iff j i).1 (sym cj ∙ ci) in absurd (ground arith)
        | inr q ↦ q
      ] in
      let rest = any-unused_elsewhere i j codes d (ground arith) in (rw same rest)
  | inr differs ↦ elim (Bool-cases (unused_by j c)) [
    | inl q ↦ (rw differs (ground arith))
    | inr q ↦
        let rest = any-unused_elsewhere i j codes d (ground arith) in (rw differs (ground arith))
  ]
]

-- The count after a change of one row that no count sees.
pub update_elsewhere :
    (now : ℕ) (i : Str) (f : User → User) (db : AdminTables) (s : User)
    → IsKeyed db.users
    → find (has_id i) db.users ≡ some s
    → is_admin s.role ≡ false
    → recoverable_administrator_count now db
      ≤ recoverable_administrator_count now (update_user i f db)
unfolding recoverable_administrator_count update_user
update_elsewhere now i f db s k e d =
    count_mono (is_recoverable now db.recovery_codes) (is_recoverable now db.recovery_codes)
      (at_id i f) db.users
      (All-imply
        (λ u away r. ap (is_recoverable now db.recovery_codes) (at_id_elsewhere i f u (away r)) ∙ r)
        db.users (elsewhere now i db s k e d))

recoverable_without_codes :
    (now : ℕ) (i : Str) (codes : List RecoveryCode) (u : User)
    → has_id i u ≡ false
    → is_recoverable now codes u ≡ true
    → is_recoverable now (filter (λ (c : RecoveryCode). not (c.user_id === i)) codes) u ≡ true
unfolding is_recoverable
recoverable_without_codes now i codes u d e =
    let kept = any-unused_elsewhere i u.id codes d (ground arith) in ground arith

without_codes_elsewhere :
    (now : ℕ) (i : Str) (db : AdminTables) (s : User)
    → IsKeyed db.users
    → find (has_id i) db.users ≡ some s
    → is_admin s.role ≡ false
    → All
        (λ u.
          is_recoverable now db.recovery_codes u ≡ true
          → (not (has_id i u) ≡ true)
            × (is_recoverable now (without_codes i db).recovery_codes u ≡ true))
        db.users
unfolding without_codes
without_codes_elsewhere now i db s k e d =
    All-imply
      (λ u away r.
        (ap not (away r), recoverable_without_codes now i db.recovery_codes u (away r) r))
      db.users (elsewhere now i db s k e d)

pub reset_elsewhere :
    (now : ℕ) (i : Str) (f : User → User) (db : AdminTables) (s : User)
    → IsKeyed db.users
    → find (has_id i) db.users ≡ some s
    → is_admin s.role ≡ false
    → recoverable_administrator_count now db
      ≤ recoverable_administrator_count now (update_user i f (without_codes i db))
unfolding recoverable_administrator_count update_user without_codes
reset_elsewhere now i f db s k e d =
    let codes = (without_codes i db).recovery_codes in
    count_mono (is_recoverable now db.recovery_codes) (is_recoverable now codes) (at_id i f)
      db.users
      (All-imply
        (λ u both r.
          ap (is_recoverable now codes) (at_id_elsewhere i f u (not-true (has_id i u) (both r).0))
          ∙ (both r).1)
        db.users (without_codes_elsewhere now i db s k e d))

pub delete_elsewhere :
    (now : ℕ) (i : Str) (db : AdminTables) (s : User)
    → IsKeyed db.users
    → find (has_id i) db.users ≡ some s
    → is_admin s.role ≡ false
    → recoverable_administrator_count now db
      ≤ recoverable_administrator_count now (without_user i db)
unfolding recoverable_administrator_count without_user without_codes
delete_elsewhere now i db s k e d =
    count_mono_filter (is_recoverable now db.recovery_codes)
      (is_recoverable now (without_codes i db).recovery_codes) (λ u. not (has_id i u)) db.users
      (without_codes_elsewhere now i db s k e d)
