-- ===== src/Scripts/AdminCreate/Stores.antt =====
-- scripts/admin-create.mjs: the new administrator written to the table or to the file.
use frankai_online.Common.{
  Str, js, [], ◌∷◌, ◌++◌, Bool, true, false, not, ◌||◌, ltb, ◌==◌, if◌then◌else◌, length, trim,
  ◌===◌, Runtime, File, missing, unreadable, content, Option, none, some, Json, null, bool, str,
  arr, obj, Items, nil, cons, end, field, items, of_items, get, whole, Fields,
}
use frankai_online.Auth.Accounts.{User, admin_role, active, find, has_email}
use frankai_online.Auth.Refresh.{is_some}
use frankai_online.Auth.Invitations.{is_address}
use frankai_online.Scripts.AdminCreate.{
  BootstrapRun, BootstrapStore, Exit, Secret, email_argument, entered, exited, finished,
  interrupted, read_secret, store_chosen, uncaught, unfinished, use_postgres, waiting,
}

-- `email.split('@')[0]`
unfoldable pub local_part : Str → Str
local_part [] = []
local_part (c ∷ s) = let rest = local_part s in if c == 64 then [] else c ∷ rest

unfoldable pub bootstrap_user : BootstrapRun → Str → Str → User
bootstrap_user run email password = record {
  id = run.fresh_id;
  email = email;
  display_name = local_part email;
  password_hash = run.hash_password password;
  password_hash_version = 1;
  role = admin_role;
  role_version = 1;
  security_version = 1;
  status = active;
  email_verified_at = some run.now_text;
  failed_login_count = 0;
  locked_until = none;
  last_login_at = none;
  password_changed_at = run.now_text;
  mfa_required = true;
  mfa_enrolled_at = none;
  created_at = run.now_text;
  updated_at = run.now_text;
}

-- The transaction on the table
unfoldable pub create_in_table : BootstrapRun → Str → Str → BootstrapStore → BootstrapStore × Exit
create_in_table run email password store =
    if is_some (find (has_email email) store.users) || not run.table_writable
    then (store, uncaught)
    else (
      record store {
        users = store.users ++ bootstrap_user run email password ∷ [];
        audit_events =
            store.audit_events
            ++ record {
              action = js "admin_bootstrap";
              result = js "success";
              actor_user_id = some run.fresh_id;
              target = none;
            }
              ∷ [];
      },
      finished,
    )

-- The object that is pushed to the list of the file
unfoldable pub bootstrap_fields : BootstrapRun → Str → Str → Fields
bootstrap_fields run email password = field (js "id") (str run.fresh_id) (
    field (js "email") (str email) (
      field (js "displayName") (str (local_part email)) (
        field (js "passwordHash") (str (run.hash_password password)) (
          field (js "passwordHashVersion") (whole 1) (
            field (js "role") (str (js "ADMIN")) (
              field (js "roleVersion") (whole 1) (
                field (js "securityVersion") (whole 1) (
                  field (js "status") (str (js "ACTIVE")) (
                    field (js "emailVerifiedAt") (str run.now_text) (
                      field (js "failedLoginCount") (whole 0) (
                        field (js "lockedUntil") null (
                          field (js "lastLoginAt") null (
                            field (js "passwordChangedAt") (str run.now_text) (
                              field (js "mfaRequired") (bool true) (
                                field (js "mfaEnrolledAt") null (
                                  field (js "createdAt") (str run.now_text)
                                    (field (js "updatedAt") (str run.now_text) end)))))))))))))))))

abbrev pub bootstrap_json : BootstrapRun → Str → Str → Json
bootstrap_json run email password = obj (bootstrap_fields run email password)

-- What `list.some(user => user.email === email)` gives; reading a member of `null` throws.
pub data Search : Type 0 where
  present not_present broken : Search

email_is : Str → Option Json → Bool
email_is email (some (str s)) = s === email
email_is email _ = false

unfoldable pub search_email : Str → Items → Search
unfolding email_is
search_email email nil = not_present
search_email email (cons null vs) = broken
search_email email (cons (obj fs) vs) =
    let rest = search_email email vs in
    if email_is email (get fs (js "email")) then present else rest
search_email email (cons _ vs) = search_email email vs

unfoldable pub write_file :
    Runtime → BootstrapRun → Str → Str → Items → Search → BootstrapStore → BootstrapStore × Exit
write_file rt run email password vs not_present store =
    if run.file_writable
    then (
      record store {
        users_file =
            content
              (rt.stringify (arr (of_items (items vs ++ bootstrap_json run email password ∷ []))));
      },
      if run.mode_settable then finished else uncaught,
    )
    else (store, uncaught)
write_file rt run email password vs _ store = (store, uncaught)

unfoldable pub extend_list :
    Runtime → BootstrapRun → Str → Str → Option Json → BootstrapStore → BootstrapStore × Exit
extend_list rt run email password (some (arr vs)) store =
    write_file rt run email password vs (search_email email vs) store
extend_list rt run email password _ store = (store, uncaught)

unfoldable pub create_in_file :
    Runtime → BootstrapRun → Str → Str → File → BootstrapStore → BootstrapStore × Exit
unfolding extend_list write_file
create_in_file rt run email password missing store =
    extend_list rt run email password (some (arr nil)) store
create_in_file rt run email password unreadable store = (store, uncaught)
create_in_file rt run email password (content raw) store =
    extend_list rt run email password (rt.parse raw) store

unfoldable pub created_with :
    Runtime → BootstrapRun → Str → Secret → BootstrapStore → BootstrapStore × Exit
created_with rt run email interrupted store = (store, exited 130)
created_with rt run email unfinished store = (store, waiting)
created_with rt run email (entered password) store =
    if ltb (length password) 12
    then (store, exited 2)
    else if use_postgres run.env
    then create_in_table run email password store
    else create_in_file rt run email password store.users_file store

-- The script
unfoldable pub create_admin : Runtime → BootstrapRun → BootstrapStore → BootstrapStore × Exit
unfolding created_with
create_admin rt run store =
    let email = email_argument run.argv in
    if not (store_chosen run.env)
    then (store, uncaught)
    else if not (is_address email)
    then (store, exited 2)
    else created_with rt run (rt.lower (trim email)) (read_secret run.keys []) store
