-- ===== src/Admin/Membership.antt =====
-- lib/auth/admin.ts: the count of administrators that can recover the site, and the audit trail
-- inside a transaction.
use frankai_online.Common.{
  ℕ, Str, List, [], ◌∷◌, ◌++◌, Bool, true, false, not, ◌&&◌, leb, if◌then◌else◌, any, str_mem,
  ◌===◌, Option, none, some,
}
use frankai_online.Auth.Accounts.{
  User, Session, AuditEvent, Role, user_role, admin_role, is_active, find,
}
use frankai_online.Auth.Login.{is_locked_at}
use frankai_online.Auth.Refresh.{has_id, is_some}
use frankai_online.Auth.Refresh.Counting.{count}
use frankai_online.Admin.Registry.{AuditRegistryEntry, audit_definition}

pub record RecoveryCode : Type 0 where
  pub user_id : Str
  pub is_used : Bool

-- The tables that the routes touch. `creators` are the users that an invitation or a configuration
-- names as its author, which the database does not let go.
pub record AdminTables : Type 0 where
  pub users : List User
  pub sessions : List Session
  pub recovery_codes : List RecoveryCode
  pub mfa_secrets : List Str
  pub creators : List Str
  pub audit_events : List AuditEvent

pub data Fault : Type 0 where
  final_administrator user_not_found other_fault : Fault

-- What the function of a transaction comes to: a value, or an exception, either with the tables as
-- its queries have left them inside the transaction.
pub data Transaction {ℓ} (A : Type ℓ) : Type ℓ where
  committed : A → AdminTables → Transaction A
  raised : Fault → AdminTables → Transaction A

-- The `catch` of `withAuthTransaction`: `ROLLBACK` gives up what the queries have left and restores
-- the tables that the transaction began with.
unfoldable pub rollback : AdminTables → AdminTables → AdminTables
rollback before left = before

abbrev pub is_admin : Role → Bool
is_admin admin_role = true
is_admin user_role = false

abbrev pub unused_by : Str → RecoveryCode → Bool
unused_by i c = (c.user_id === i) && not c.is_used

-- The condition of the query of `recoverableAdministratorCount`.
unfoldable pub is_recoverable : ℕ → List RecoveryCode → User → Bool
is_recoverable now codes u =
    is_admin u.role
    && is_active u.status
    && is_some u.email_verified_at
    && is_some u.mfa_enrolled_at
    && not (is_locked_at u.locked_until now)
    && any (unused_by u.id) codes

unfoldable pub recoverable_administrator_count : ℕ → AdminTables → ℕ
recoverable_administrator_count now db = count (is_recoverable now db.recovery_codes) db.users

abbrev pub is_user : Str → AdminTables → Bool
is_user i db = is_some (find (has_id i) db.users)

abbrev pub allows : Option AuditRegistryEntry → Str → Bool
allows none result = false
allows (some e) result = str_mem result e.success_failure

-- The action must be registered with the result, and the row needs an existing actor.
unfoldable pub audit_in_transaction : Str → Str → Str → Str → AdminTables → Option AdminTables
audit_in_transaction actor action result target db =
    if allows (audit_definition action) result && is_user actor db
    then some (record db {
      audit_events =
          db.audit_events
          ++ record {
            action = action;
            result = result;
            actor_user_id = some actor;
            target = some target;
          }
            ∷ [];
    })
    else none

-- `assertRecoverableAdministrator`, where it is called for, before the audit row and the commit.
unfoldable pub conclude {ℓ} :
    {A : Type ℓ} → ℕ → Bool → A → Option AdminTables → AdminTables → Transaction A
conclude now needs_check a none db =
    if needs_check && leb (recoverable_administrator_count now db) 0
    then raised final_administrator db
    else raised other_fault db
conclude now needs_check a (some audited) db =
    if needs_check && leb (recoverable_administrator_count now db) 0
    then raised final_administrator db
    else committed a audited
