-- ===== src/Tests/Platform.antt =====
-- The platform's theorems at the built-in configuration.
use frankai_online.Common.{
  Str, js, true, false, ◌≡◌, refl, is_empty, is_space, trim, trim_start, trim_end, ◌===◌, IsClean,
  trim-IsClean, Runtime, missing, content, arith, none, Json, str, obj, end, field, accepted,
  complete, inl,
}
use frankai_online.Platform.Config.{PlatformConfig}
use frankai_online.Platform.Default.{default_platform_config}
use frankai_online.Platform.Validation.{validate_platform_config}
use frankai_online.Platform.Validation.Encode.{config_fields, IsConfig}
use frankai_online.Platform.Validation.Sound.{validate_platform_config-IsConfig}
use frankai_online.Platform.Validation.Complete.{validate_platform_config-config_fields}
use frankai_online.Platform.Store.{
  done, read_platform_config, save_platform_draft, draft_input, put, config_text,
}
use frankai_online.Platform.Store.Laws.{
  default_accepted, default_platform_config-IsConfig, read_platform_config-IsConfig,
  save_platform_draft_lem,
}
use frankai_online.Platform.Store.Ends.{platform_store-read}
use frankai_online.Platform.Admin.{AdminCall, approval_phrase, post_platform}
use frankai_online.Platform.Admin.Effects.{
  RefusesWithError, IsGoverned, PublicationFits, post_platform-IsGoverned,
}
use frankai_online.Tests.Host.{host}

abbrev now : Str
now = js "now"

-- What a missing file stands for.
abbrev initial : PlatformConfig
initial = record default_platform_config { updated_at = now }

abbrev machine : Runtime
machine = host (obj (config_fields initial))

filled : is_empty (trim now) ≡ false
unfolding trim trim_start trim_end is_space
filled = refl

validate_platform_config-IsConfig_example : IsConfig default_platform_config
validate_platform_config-IsConfig_example =
    validate_platform_config-IsConfig now (obj (config_fields default_platform_config))
      default_platform_config filled default_accepted

validate_platform_config-config_fields_example :
    validate_platform_config now (obj (config_fields default_platform_config))
    ≡ accepted default_platform_config
validate_platform_config-config_fields_example =
    validate_platform_config-config_fields now default_platform_config
      default_platform_config-IsConfig

absent_read : read_platform_config machine now missing ≡ done initial
unfolding read_platform_config
absent_read = refl

initial-IsConfig : IsConfig initial
initial-IsConfig = read_platform_config-IsConfig machine now missing initial filled absent_read

ann-IsClean : IsClean (js "ann")
unfolding trim trim_start trim_end is_space
ann-IsClean = trim-IsClean (js "ann") refl

drafted_saved :
    save_platform_draft machine now complete (obj (config_fields initial)) missing
    ≡ (content (config_text machine initial), done initial)
unfolding save_platform_draft read_platform_config draft_input put ◌===◌
drafted_saved = rw (validate_platform_config-config_fields now initial initial-IsConfig) refl

save_platform_draft_lem_example :
    IsConfig initial
    × (content (config_text machine initial) ≡ content (config_text machine initial))
    × (initial.published_at ≡ initial.published_at)
    × (initial.published_by ≡ initial.published_by)
    × (initial.updated_at ≡ now)
save_platform_draft_lem_example =
    save_platform_draft_lem machine now complete (obj (config_fields initial)) missing
      (content (config_text machine initial)) initial initial filled absent_read drafted_saved

abbrev approval : Json
approval = obj (
    field (js "approvalPhrase") (str approval_phrase)
      (field (js "approvalNote") (str (js "agreed with all the reviewers")) end))

abbrev admin_call : AdminCall
admin_call = record {
  refused_by_auth = none;
  allowed = true;
  csrf_ok = true;
  request = record { authorization = none; content_length = none; body = js "{}" };
  max_bytes = none;
  now = now;
  write = complete;
}

never_refused : RefusesWithError admin_call
never_refused r e = ground arith

post_platform-IsGoverned_example :
    IsGoverned
      (host approval)
      admin_call
      (PublicationFits (host approval) admin_call missing)
      missing
      (post_platform (host approval) admin_call missing)
post_platform-IsGoverned_example =
    post_platform-IsGoverned (host approval) admin_call missing filled never_refused

platform_store-read_example :
    read_platform_config machine (js "later") (content (config_text machine initial)) ≡ done initial
platform_store-read_example =
    platform_store-read machine now (js "later") (js "ann") complete (obj (config_fields initial))
      missing (content (config_text machine initial)) initial filled ann-IsClean refl
      (inl drafted_saved)
