-- ===== src/Platform/Store/Laws.antt =====
-- lib/platform/store.ts: drafts, publications and what is read from the file.
use frankai_online.Common.{
  Str, js, false, ◌≡◌, refl, sym, ap, ◌∙◌, if◌then◌else◌, is_empty, is_space, trim, trim_start,
  trim_end, ◌===◌, ===_iff, decimal, IsClean, Runtime, File, missing, unreadable, content, arith,
  Option, none, some, Json, str, obj, Fields, end, field, get, Checked, accepted, refused, Write,
  complete, not_opened, cut_after,
}
use frankai_online.Platform.Config.{PlatformConfig}
use frankai_online.Platform.Default.{default_platform_config}
use frankai_online.Platform.Parse.{
  required_string, string_items, string_list, spelled, one_of, parse_each, parse_list,
}
use frankai_online.Platform.Validation.{
  parse_config, parse_stage, parse_stages, parse_capability, parse_capabilities, parse_agent,
  parse_agents, blocks, parse_item, parse_checklist, filled_text, trimmed_text, text_or,
  unless_errors, validate_platform_config,
}
use frankai_online.Platform.Validation.Encode.{config_fields, IsConfig, HasText, HasCleanText}
use frankai_online.Platform.Validation.Sound.{validate_platform_config-IsConfig, unless_errors-eq}
use frankai_online.Platform.Validation.Complete.{
  validate_platform_config-config_fields, filled_text-null_or_text, trimmed_text-null_or_text,
}
use frankai_online.Platform.Store.{
  Attempt, done, invalid, broken, attempt, parsed_config, read_platform_config, config_text,
  written, put, null_or, draft_input, draft, save_platform_draft, published,
  publish_platform_config, write_platform_config,
}

pub default_accepted :
    validate_platform_config (js "now") (obj (config_fields default_platform_config))
    ≡ accepted default_platform_config
unfolding validate_platform_config unless_errors parse_config parse_stages parse_stage
    parse_capabilities parse_capability parse_agents parse_agent parse_checklist parse_item blocks
    filled_text trimmed_text text_or parse_list parse_each one_of spelled string_list string_items
    required_string get ◌===◌ trim trim_start trim_end is_space decimal
default_accepted = refl

now_filled : is_empty (trim (js "now")) ≡ false
unfolding trim trim_start trim_end is_space
now_filled = refl

-- The configuration that stands in for a missing file is valid.
pub default_platform_config-IsConfig : IsConfig default_platform_config
default_platform_config-IsConfig =
    validate_platform_config-IsConfig (js "now") (obj (config_fields default_platform_config))
      default_platform_config now_filled default_accepted

-- The same configuration with other publication fields.
pub with_publication :
    {c : PlatformConfig} (at by : Option Str) (updated : Str)
    → IsConfig c
    → HasText at
    → HasCleanText by
    → is_empty (trim updated) ≡ false
    → IsConfig (record c { published_at = at; published_by = by; updated_at = updated })
with_publication at by updated h p q r = record {
  stages = h.stages;
  capabilities = h.capabilities;
  agents = h.agents;
  governance_checklist = h.governance_checklist;
  has_stages = h.has_stages;
  has_capabilities = h.has_capabilities;
  has_agents = h.has_agents;
  has_checklist = h.has_checklist;
  notes = h.notes;
  published_at = p;
  published_by = q;
  updated_at = r;
}

pub attempt-done :
    (m : Checked PlatformConfig) (c : PlatformConfig) → attempt m ≡ done c → m ≡ accepted c
unfolding attempt
attempt-done (accepted a) c h = ground arith
attempt-done (refused e) c h = cc

parsed_config-IsConfig :
    (now : Str) (o : Option Json) (c : PlatformConfig)
    → is_empty (trim now) ≡ false
    → parsed_config now o ≡ done c
    → IsConfig c
unfolding parsed_config
parsed_config-IsConfig now none c k h = cc
parsed_config-IsConfig now (some v) c k h =
    validate_platform_config-IsConfig now v c k (attempt-done _ c h)

pub done-injective : {a b : PlatformConfig} → done a ≡ done b → a ≡ b
done-injective h = cc

-- Whatever the file holds, a configuration that is read from it is valid, if the time of the call
-- is not blank.
pub read_platform_config-IsConfig :
    (rt : Runtime) (now : Str) (file : File) (c : PlatformConfig)
    → is_empty (trim now) ≡ false
    → read_platform_config rt now file ≡ done c
    → IsConfig c
unfolding read_platform_config
read_platform_config-IsConfig rt now missing c k h =
    rw (done-injective h) at
      (with_publication none none now default_platform_config-IsConfig tt tt k)
read_platform_config-IsConfig rt now unreadable c k h = cc
read_platform_config-IsConfig rt now (content raw) c k h =
    parsed_config-IsConfig now (rt.parse raw) c k h

-- Publishing a readable configuration to a writable file succeeds, at a time that is not blank and
-- for a publisher's name that is trimmed and has content: it sets the publication's time and name and the time of the update, and
-- leaves every other field as it was.
pub publish_platform_config_lem :
    (rt : Runtime) (now published_by : Str) (file : File) (current : PlatformConfig)
    → is_empty (trim now) ≡ false
    → IsClean published_by
    → read_platform_config rt now file ≡ done current
    → (next : PlatformConfig) × (next ≡ record current {
      published_at = some now;
      published_by = some published_by;
      updated_at = now;
    })
      × (publish_platform_config rt now complete published_by file
          ≡ (content (config_text rt next), done next))
unfolding publish_platform_config published
publish_platform_config_lem rt now published_by file current k p h =
    let next = record current {
      published_at = some now;
      published_by = some published_by;
      updated_at = now;
    } in
    let valid : IsConfig next =
      with_publication (some now) (some published_by) now
        (read_platform_config-IsConfig rt now file current k h) k p k in
    (next, refl, rw h (rw (validate_platform_config-config_fields now next valid)))

get-put :
    (key j : Str) (v : Json) (fs : Fields)
    → get (put key v fs) j ≡ (if key === j then some v else get fs j)
unfolding get put
get-put key j v end = refl
get-put key j v (field k w fs) =
    ground (arith, ===_iff k key, ===_iff k j, ===_iff key j, get-put key j v fs)

pub draft_fields :
    (now : Str) (current : PlatformConfig) (input : Json)
    → (get (draft_input now current input) (js "publishedAt") ≡ some (null_or current.published_at))
      × (get (draft_input now current input) (js "publishedBy")
          ≡ some (null_or current.published_by))
      × (get (draft_input now current input) (js "updatedAt") ≡ some (str now))
unfolding draft_input ◌===◌
draft_fields now current input = (simp get-put, simp get-put, simp get-put)

-- The publication fields of an accepted input are read off its fields.
pub accepted_fields :
    (now : Str) (fs : Fields) (d : PlatformConfig)
    → validate_platform_config now (obj fs) ≡ accepted d
    → (d.published_at ≡ filled_text (get fs (js "publishedAt")))
      × (d.published_by ≡ trimmed_text (get fs (js "publishedBy")))
      × (d.updated_at ≡ text_or (filled_text (get fs (js "updatedAt"))) now)
unfolding validate_platform_config parse_config
accepted_fields now fs d h =
    let (same, _) = unless_errors-eq (parse_config now fs) d h in
    (
      ap (λ c. c.published_at) (sym same),
      ap (λ c. c.published_by) (sym same),
      ap (λ c. c.updated_at) (sym same),
    )

pub null_or-text :
    (o : Option Str)
    → (HasText o → filled_text (some (null_or o)) ≡ o)
      × (HasCleanText o → trimmed_text (some (null_or o)) ≡ o)
unfolding null_or
null_or-text none = (filled_text-null_or_text none, trimmed_text-null_or_text none)
null_or-text (some s) = (filled_text-null_or_text (some s), trimmed_text-null_or_text (some s))

pub dated_text : (now : Str) → is_empty (trim now) ≡ false → filled_text (some (str now)) ≡ some now
dated_text now k = filled_text-null_or_text (some now) k

pub written_done :
    (rt : Runtime) (write : Write) (file file' : File) (a : Attempt) (d : PlatformConfig)
    → written rt write file a ≡ (file', done d)
    → (a ≡ done d) × (file' ≡ content (config_text rt d))
unfolding written write_platform_config
written_done rt complete file file' (done c) d h = ground arith
written_done rt not_opened file file' (done c) d h = absurd (ground arith)
written_done rt (cut_after n) file file' (done c) d h = absurd (ground arith)
written_done rt write file file' (invalid e) d h = absurd (ground arith)
written_done rt write file file' broken d h = absurd (ground arith)

-- A draft that is saved, at a time that is not blank, is valid and is what the file then holds; it keeps the publication fields of
-- the configuration that was there before, whatever the input says of them, and is dated now.
pub save_platform_draft_lem :
    (rt : Runtime) (now : Str) (write : Write) (input : Json) (file file' : File)
    (current d : PlatformConfig)
    → is_empty (trim now) ≡ false
    → read_platform_config rt now file ≡ done current
    → save_platform_draft rt now write input file ≡ (file', done d)
    → IsConfig d
      × (file' ≡ content (config_text rt d))
      × (d.published_at ≡ current.published_at)
      × (d.published_by ≡ current.published_by)
      × (d.updated_at ≡ now)
unfolding save_platform_draft draft text_or
save_platform_draft_lem rt now write input file file' current d k r h =
    let (checked, held) = written_done rt write file file' _ d (rw r at h) in
    let valid = attempt-done _ d checked in
    let (at, by, updated) = accepted_fields now (draft_input now current input) d valid in
    let (f, g, u) = draft_fields now current input in
    let old = read_platform_config-IsConfig rt now file current k r in
    (
      validate_platform_config-IsConfig now _ d k valid,
      held,
      at ∙ ap filled_text f ∙ (null_or-text current.published_at).0 old.published_at,
      by ∙ ap trimmed_text g ∙ (null_or-text current.published_by).1 old.published_by,
      updated
          ∙ ap (λ o. text_or (filled_text o) now) u
          ∙ ap (λ o. text_or o now) (dated_text now k),
    )
