-- ===== src/Scripts/AdminCreate/Created.antt =====
-- scripts/admin-create.mjs: what a run that finishes has created.
use frankai_online.Common.{
  Str, [], ◌∷◌, ◌++◌, Bool, true, false, ◌≡◌, ◌⊎◌, ltb, length, trim, Runtime, content, none, some,
  null, bool, str, arr, obj, Items, items, of_items, js, Fields, get,
}
use frankai_online.Auth.Accounts.{find, has_email, User, admin_role, active}
use frankai_online.Auth.Invitations.{is_address}
use frankai_online.Scripts.AdminCreate.{
  BootstrapRun, BootstrapStore, Exit, finished, use_postgres, store_chosen, email_argument, entered,
  read_secret,
}
use frankai_online.Scripts.AdminCreate.Stores.{not_present, search_email}

-- An administrator as it is to be: active, of the address, with the password's hash, and with a
-- second factor that is asked for and not enrolled yet.
pub record IsAdministrator (run : BootstrapRun) (email password : Str) (u : User) : Type 0 where
  pub address : u.email ≡ email
  pub hashed : u.password_hash ≡ run.hash_password password
  pub administers : u.role ≡ admin_role
  pub is_active : u.status ≡ active
  pub factor_asked : u.mfa_required ≡ true
  pub factor_missing : u.mfa_enrolled_at ≡ none

-- The same of the members of an object.
pub record DescribesAdministrator (run : BootstrapRun) (email password : Str) (fs : Fields)
    : Type 0 where
  pub address : get fs (js "email") ≡ some (str email)
  pub hashed : get fs (js "passwordHash") ≡ some (str (run.hash_password password))
  pub administers : get fs (js "role") ≡ some (str (js "ADMIN"))
  pub is_active : get fs (js "status") ≡ some (str (js "ACTIVE"))
  pub factor_asked : get fs (js "mfaRequired") ≡ some (bool true)
  pub factor_missing : get fs (js "mfaEnrolledAt") ≡ some null

-- In the table there is one more user, of an address that none had.
pub record IsInTable (run : BootstrapRun) (email password : Str) (store store' : BootstrapStore)
    : Type 0 where
  pub database_used : use_postgres run.env ≡ true
  pub email_new : find (has_email email) store.users ≡ none
  pub added : User
  pub added_fits : IsAdministrator run email password added
  pub user_added : store'.users ≡ store.users ++ added ∷ []
  pub file_kept : store'.users_file ≡ store.users_file

-- The file lists one more user, of an address that none had.
pub record IsInFile (rt : Runtime) (run : BootstrapRun) (email password : Str)
    (store store' : BootstrapStore) : Type 0 where
  pub listed : Items
  pub added : Fields
  pub added_fits : DescribesAdministrator run email password added
  pub email_new : search_email email listed ≡ not_present
  pub file_written :
      store'.users_file ≡ content (rt.stringify (arr (of_items (items listed ++ obj added ∷ []))))
  pub users_kept : store'.users ≡ store.users

pub record IsCreated (rt : Runtime) (run : BootstrapRun) (store store' : BootstrapStore)
    : Type 0 where
  pub password : Str
  pub store_certain : store_chosen run.env ≡ true
  pub address_given : is_address (email_argument run.argv) ≡ true
  pub password_entered : read_secret run.keys [] ≡ entered password
  pub password_long : ltb (length password) 12 ≡ false
  pub user_created :
      IsInTable run (rt.lower (trim (email_argument run.argv))) password store store'
      ⊎ IsInFile rt run (rt.lower (trim (email_argument run.argv))) password store store'

abbrev is_finished : Exit → Bool
is_finished finished = true
is_finished _ = false

abbrev pub CreatedOrKept :
    (BootstrapStore → Type 0) → BootstrapStore → BootstrapStore × Exit → Type 0
CreatedOrKept P store (store', e) = ((store' ≡ store) × (is_finished e ≡ false)) ⊎ P store'
