-- ===== src/Platform/Admin.antt =====
-- app/api/admin/platform: reading, drafting and publishing the configuration over its guards.
pub mod Effects
use frankai_online.Common.{
  ℕ, ◌*◌, Write, Str, js, [], Bool, not, ◌&&◌, leb, if◌then◌else◌, length, is_empty, trim, ◌===◌,
  Runtime, File, Option, none, some, Json, null, str, obj, Fields, end, get, Reply, error_reply,
  Outcome, replied, thrown,
}
use frankai_online.Memory.Access.{
  Request, Payload, payload, rejected, read_json_payload, get_max_payload_bytes,
}
use frankai_online.Platform.Config.{PlatformConfig}
use frankai_online.Platform.Validation.Encode.{config_fields}
use frankai_online.Platform.Store.{
  Attempt, done, invalid, broken, read_platform_config, save_platform_draft,
  publish_platform_config,
}

-- What a request meets: the reply of the administrator's guard where it refuses, the outcomes of
-- the rate limit and of the CSRF check, the configured body limit, the clock,
-- and how a write of the file ends.
pub record AdminCall : Type 0 where
  pub refused_by_auth : Option Reply
  pub allowed : Bool
  pub csrf_ok : Bool
  pub request : Request
  pub max_bytes : Option Str
  pub now : Str
  pub write : Write

abbrev pub default_max_payload_bytes : ℕ
default_max_payload_bytes = 256 * 1024

abbrev pub approval_phrase : Str
approval_phrase = js "APPROVE FRANKAI PLATFORM CHANGES"

abbrev pub config_reply : PlatformConfig → Reply
config_reply c = record { status = 200; body = obj (config_fields c) }

-- A call whose exceptions the handler lets through.
unguarded : Attempt → Outcome
unguarded (done c) = replied (config_reply c)
unguarded _ = thrown

unfoldable pub get_platform : Runtime → AdminCall → File → Outcome
unfolding unguarded
get_platform rt call file = elim call.refused_by_auth [
  | some r ↦ replied r
  | none ↦
      if not call.allowed
      then replied (error_reply 429 (js "Too many requests."))
      else unguarded (read_platform_config rt call.now file)
]

-- The guards that a change passes, and the payload behind them.
unfoldable pub guarded : Runtime → AdminCall → Option Reply → Payload
guarded rt call (some r) = rejected r
guarded rt call none =
    if not call.allowed
    then rejected (error_reply 429 (js "Too many requests."))
    else if not call.csrf_ok
    then rejected (error_reply 403 (js "CSRF validation failed"))
    else read_json_payload rt call.request
        (get_max_payload_bytes rt call.max_bytes default_max_payload_bytes)

draft_outcome : Attempt → Outcome
draft_outcome (done c) = replied (config_reply c)
draft_outcome (invalid message) = replied (error_reply 400 message)
draft_outcome broken = replied (error_reply 500 (js "Failed to save platform draft"))

put_parsed : Runtime → AdminCall → Payload → File → File × Outcome
put_parsed rt call (rejected r) file = (file, replied r)
put_parsed rt call (payload v) file =
    let saved = save_platform_draft rt call.now call.write v file in
    (saved.0, draft_outcome saved.1)

unfoldable pub put_platform : Runtime → AdminCall → File → File × Outcome
unfolding put_parsed draft_outcome
put_platform rt call file = put_parsed rt call (guarded rt call call.refused_by_auth) file

-- `typeof value === 'string' ? value.trim() : ''`
unfoldable pub trimmed : Option Json → Str
trimmed (some (str s)) = trim s
trimmed _ = []

unfoldable pub publisher : Fields → Str
publisher fs =
    let given = trimmed (get fs (js "publishedBy")) in
    if is_empty given then js "platform-admin" else given

unfoldable pub is_approved : Fields → Bool
is_approved fs =
    (trimmed (get fs (js "approvalPhrase")) === approval_phrase)
    && leb 20 (length (trimmed (get fs (js "approvalNote"))))

publish_outcome : Attempt → Outcome
publish_outcome (done c) = replied (config_reply c)
publish_outcome _ = replied (error_reply 500 (js "Failed to publish platform config"))

publish_approved : Runtime → AdminCall → Fields → File → File × Outcome
publish_approved rt call fs file =
    if not (is_approved fs)
    then (
      file,
      replied (
          error_reply 400
            (js "Approval phrase mismatch or note too short (minimum 20 characters).")),
    )
    else let result = publish_platform_config rt call.now call.write (publisher fs) file in
      (result.0, publish_outcome result.1)

-- Reading a member of `null` throws; a value that is no object has none of the members.
publish_parsed : Runtime → AdminCall → Payload → File → File × Outcome
publish_parsed rt call (rejected r) file = (file, replied r)
publish_parsed rt call (payload null) file = (file, thrown)
publish_parsed rt call (payload (obj fs)) file = publish_approved rt call fs file
publish_parsed rt call (payload _) file = publish_approved rt call end file

unfoldable pub post_platform : Runtime → AdminCall → File → File × Outcome
unfolding publish_parsed publish_approved publish_outcome publisher
post_platform rt call file = publish_parsed rt call (guarded rt call call.refused_by_auth) file
