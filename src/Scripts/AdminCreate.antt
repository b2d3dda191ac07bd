-- ===== src/Scripts/AdminCreate.antt =====
-- scripts/admin-create.mjs: the first administrator, created from the command line.
pub mod Stores
pub mod Created
use frankai_online.Common.{
  ℕ, zero, suc, Str, js, List, [], ◌∷◌, ◌++◌, Bool, not, ◌&&◌, ◌||◌, if◌then◌else◌, is_empty, ◌===◌,
  starts_with, File, Option, none, some,
}
use frankai_online.Auth.Accounts.{User, AuditEvent, find}
use frankai_online.Auth.Config.{Environment, setting_or, is_set}

-- What a run meets: the environment, the arguments with the two paths before them, the chunks that
-- the terminal sends, the password's hash, a fresh id, the time, and whether the table and the file
-- can be written and the mode of the file be set.
pub record BootstrapRun : Type 0 where
  pub env : Environment
  pub argv : List Str
  pub keys : List Str
  pub hash_password : Str → Str
  pub fresh_id : Str
  pub now_text : Str
  pub table_writable : Bool
  pub file_writable : Bool
  pub mode_settable : Bool

-- The table and the audit trail of the database, and the file of users.
pub record BootstrapStore : Type 0 where
  pub users : List User
  pub audit_events : List AuditEvent
  pub users_file : File

pub data Exit : Type 0 where
  finished : Exit
  exited : ℕ → Exit
  uncaught : Exit
  waiting : Exit

unfoldable pub use_postgres : Environment → Bool
use_postgres env =
    is_set (env (js "AUTH_STORE")) (js "postgres")
    || is_set (env (js "AUTH_DATABASE_ENABLED")) (js "true")
    || is_set (env (js "NODE_ENV")) (js "production")

-- Whether the store is chosen without a doubt; else the script throws.
unfoldable pub store_chosen : Environment → Bool
store_chosen env =
    if use_postgres env
    then is_set (env (js "AUTH_STORE")) (js "postgres")
      && is_set (env (js "AUTH_DATABASE_ENABLED")) (js "true")
      && not (is_empty (setting_or (env (js "DATABASE_URL")) []))
    else is_set (env (js "AUTH_STORE")) (js "file")

without_units : ℕ → Str → Str
without_units zero s = s
without_units (suc n) [] = []
without_units (suc n) (c ∷ s) = without_units n s

first_argument : List Str → Str
first_argument [] = []
first_argument (a ∷ _) = a

-- `argv[argv.indexOf('--email') + 1]`, where `argv` holds it; an argument that is absent is empty.
argument_after : List Str → Option Str
argument_after [] = none
argument_after (a ∷ rest) =
    if a === js "--email" then some (first_argument rest) else argument_after rest

-- Without `--email` the index is -1, and the first path is read.
argument_or_first : Option Str → List Str → Str
argument_or_first (some s) argv = s
argument_or_first none argv = first_argument argv

after_paths : List Str → List Str
after_paths (_ ∷ _ ∷ rest) = rest
after_paths _ = []

email_option : Option Str → Str
email_option none = []
email_option (some a) = without_units 8 a

unfoldable pub email_argument : List Str → Str
unfolding without_units first_argument argument_after argument_or_first after_paths email_option
email_argument argv =
    let given = email_option (find (λ a. starts_with a (js "--email=")) (after_paths argv)) in
    if is_empty given then argument_or_first (argument_after argv) argv else given

pub data Secret : Type 0 where
  entered : Str → Secret
  interrupted unfinished : Secret

drop_last : Str → Str
drop_last [] = []
drop_last (c ∷ []) = []
drop_last (c ∷ d ∷ s) = c ∷ drop_last (d ∷ s)

-- `onData`, over the chunks in their order
unfoldable pub read_secret : List Str → Str → Secret
unfolding drop_last
read_secret [] value = unfinished
read_secret (key ∷ keys) value =
    let erased = read_secret keys (drop_last value) in
    let extended = read_secret keys (value ++ key) in
    if key === js "\n" || key === 13 ∷ [] || key === 4 ∷ []
    then entered value
    else if key === 3 ∷ []
    then interrupted
    else if key === 127 ∷ []
    then erased
    else extended
