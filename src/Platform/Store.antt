-- ===== src/Platform/Store.antt =====
-- lib/platform/store.ts: reading, saving and publishing the configuration file.
pub mod Laws
pub mod Ends
use frankai_online.Common.{
  Str, js, ◌++◌, take, if◌then◌else◌, Write, complete, not_opened, cut_after, ◌===◌, Runtime, File,
  missing, unreadable, content, Option, none, some, Json, null, str, arr, obj, Fields, end, field,
  of_fields, Checked, accepted, refused,
}
use frankai_online.Memory.Metadata.{entries_of}
use frankai_online.Platform.Config.{PlatformConfig}
use frankai_online.Platform.Default.{default_platform_config}
use frankai_online.Platform.Validation.{validate_platform_config}
use frankai_online.Platform.Validation.Encode.{config_fields}

-- The result of a call: a configuration, a `PlatformValidationError` with its message, or another
-- exception.
pub data Attempt : Type 0 where
  done : PlatformConfig → Attempt
  invalid : Str → Attempt
  broken : Attempt

pub attempt : Checked PlatformConfig → Attempt
attempt (accepted c) = done c
attempt (refused message) = invalid message

pub parsed_config : Str → Option Json → Attempt
parsed_config now none = broken
parsed_config now (some v) = attempt (validate_platform_config now v)

unfoldable pub read_platform_config : Runtime → Str → File → Attempt
unfolding attempt parsed_config
read_platform_config rt now missing = done (record default_platform_config { updated_at = now })
read_platform_config rt now unreadable = broken
read_platform_config rt now (content raw) = parsed_config now (rt.parse raw)

-- `${JSON.stringify(config, null, 2)}\n`
unfoldable pub config_text : Runtime → PlatformConfig → Str
config_text rt c = rt.stringify (obj (config_fields c)) ++ js "\n"

-- The file after `writeFile`, which opens it, empties it and then writes; and the result.
pub write_platform_config : Runtime → Write → File → PlatformConfig → File × Attempt
write_platform_config rt complete file c = (content (config_text rt c), done c)
write_platform_config rt not_opened file c = (file, broken)
write_platform_config rt (cut_after n) file c = (content (take n (config_text rt c)), broken)

-- A configuration is written, and an exception is passed on.
pub written : Runtime → Write → File → Attempt → File × Attempt
written rt write file (done c) = write_platform_config rt write file c
written rt write file (invalid message) = (file, invalid message)
written rt write file broken = (file, broken)

-- `{ ...fields, [key]: value }`
unfoldable pub put : Str → Json → Fields → Fields
put key v end = field key v end
put key v (field k w fs) = if k === key then field k v fs else field k w (put key v fs)

-- `...(typeof input === 'object' && input !== null ? input : {})`
spread : Json → Fields
spread (obj fs) = fs
spread (arr vs) = of_fields (entries_of (arr vs))
spread _ = end

pub null_or : Option Str → Json
null_or none = null
null_or (some s) = str s

unfoldable pub draft_input : Str → PlatformConfig → Json → Fields
unfolding spread null_or
draft_input now current input = put (js "updatedAt") (str now) (
    put (js "publishedBy") (null_or current.published_by)
      (put (js "publishedAt") (null_or current.published_at) (spread input)))

-- The draft that is checked, once the current configuration has been read.
pub draft : Str → Json → Attempt → Attempt
draft now input (done current) =
    attempt (validate_platform_config now (obj (draft_input now current input)))
draft now input result = result

unfoldable pub save_platform_draft : Runtime → Str → Write → Json → File → File × Attempt
unfolding attempt write_platform_config written draft
save_platform_draft rt now write input file =
    written rt write file (draft now input (read_platform_config rt now file))

pub published : Str → Str → Attempt → Attempt
published now published_by (done current) = attempt (
    validate_platform_config now (
      obj (
        config_fields (record current {
          published_at = some now;
          published_by = some published_by;
          updated_at = now;
        }))))
published now published_by result = result

unfoldable pub publish_platform_config : Runtime → Str → Write → Str → File → File × Attempt
unfolding attempt write_platform_config written published
publish_platform_config rt now write published_by file =
    written rt write file (published now published_by (read_platform_config rt now file))
