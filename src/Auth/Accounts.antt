-- ===== src/Auth/Accounts.antt =====
-- lib/auth/store.ts: users, sessions and the audit trail.
use frankai_online.Common.{
  ℕ, Str, js, List, [], ◌∷◌, ◌++◌, Bool, true, false, if◌then◌else◌, ◌===◌, Option, none, some,
}

pub data Role : Type 0 where
  user_role admin_role : Role

pub data Status : Type 0 where
  active disabled locked pending_verification : Status

abbrev pub is_active : Status → Bool
is_active active = true
is_active _ = false

abbrev pub role_text : Role → Str
role_text user_role = js "USER"
role_text admin_role = js "ADMIN"

-- Times are milliseconds; `Str` holds the ISO texts.
pub record User : Type 0 where
  pub id : Str
  pub email : Str
  pub display_name : Str
  pub password_hash : Str
  pub password_hash_version : ℕ
  pub role : Role
  pub role_version : ℕ
  pub security_version : ℕ
  pub status : Status
  pub email_verified_at : Option Str
  pub failed_login_count : ℕ
  pub locked_until : Option ℕ
  pub last_login_at : Option Str
  pub password_changed_at : Str
  pub mfa_required : Bool
  pub mfa_enrolled_at : Option Str
  pub created_at : Str
  pub updated_at : Str

pub record Session : Type 0 where
  pub id : Str
  pub user_id : Str
  pub token_hash : Str
  pub token_family : Str
  pub expires_at : ℕ
  pub revoked_at : Option ℕ
  pub replaced_by_session_id : Option Str
  pub created_at : Str
  pub last_used_at : Option ℕ

pub record AuditEvent : Type 0 where
  pub action : Str
  pub result : Str
  pub actor_user_id : Option Str
  pub target : Option Str

-- The rows of the store. Reads return the whole list, and saves write it back.
pub record AuthStore : Type 0 where
  pub users : List User
  pub sessions : List Session
  pub audit_events : List AuditEvent

-- `list.find(item => …)`
unfoldable pub find {ℓ} : {A : Type ℓ} → (A → Bool) → List A → Option A
find p [] = none
find p (x ∷ xs) = if p x then some x else find p xs

-- A change of the object that `find` returns, in the list that holds it.
unfoldable pub update_found {ℓ} : {A : Type ℓ} → (A → Bool) → (A → A) → List A → List A
update_found p f [] = []
update_found p f (x ∷ xs) = if p x then f x ∷ xs else x ∷ update_found p f xs

abbrev pub has_email : Str → User → Bool
has_email email u = u.email === email

unfoldable pub add_audit : AuditEvent → AuthStore → AuthStore
add_audit e store = record store { audit_events = store.audit_events ++ e ∷ [] }
