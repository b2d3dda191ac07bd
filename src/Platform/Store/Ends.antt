-- ===== src/Platform/Store/Ends.antt =====
-- lib/platform/store.ts: the ends of a save and of a publication, and what is read afterwards.
use frankai_online.Common.{
  Str, js, false, ◌≡◌, ◌≢◌, ◌⊎◌, refl, sym, ap, ◌∙◌, inl, inr, is_empty, trim, IsClean, Runtime,
  File, content, some, Json, obj, accepted, Write, complete, not_opened, cut_after, take, ℕ, ◌++◌,
  subst,
}
use frankai_online.Platform.Config.{PlatformConfig}
use frankai_online.Platform.Validation.{
  filled_text, trimmed_text, text_or, validate_platform_config,
}
use frankai_online.Platform.Validation.Encode.{config_fields, IsConfig}
use frankai_online.Platform.Validation.Sound.{validate_platform_config-IsConfig}
use frankai_online.Platform.Validation.Complete.{validate_platform_config-config_fields}
use frankai_online.Platform.Store.{
  Attempt, done, invalid, broken, attempt, parsed_config, read_platform_config, config_text,
  written, draft_input, draft, save_platform_draft, published, publish_platform_config,
  write_platform_config,
}
use frankai_online.Platform.Store.Laws.{
  accepted_fields, attempt-done, dated_text, done-injective, draft_fields, null_or-text,
  read_platform_config-IsConfig, with_publication, written_done,
}

-- The ways in which a save or a publication ends. Either the call throws, and the file is as it
-- was or holds the beginning of the text of a configuration that was accepted; or it returns a
-- configuration that was accepted, and the file holds its text.
abbrev pub Ends : Runtime → Write → File → (PlatformConfig → Type 0) → File × Attempt → Type 0
Ends rt write file Accepted (file', result) =
    ((file' ≡ file) × ((d : PlatformConfig) → result ≢ done d))
    ⊎ ((n : ℕ) × (d : PlatformConfig) × (write ≡ cut_after n)
        × Accepted d
        × (result ≡ broken)
        × (file' ≡ content (take n (config_text rt d))))
    ⊎ ((d : PlatformConfig) × Accepted d × (result ≡ done d) × (file' ≡ content (config_text rt d)))

written-Ends :
    (rt : Runtime) (write : Write) (file : File) (a : Attempt)
    → Ends rt write file (λ d. a ≡ done d) (written rt write file a)
unfolding written write_platform_config
written-Ends rt complete file (done c) = inr (inr (c, refl, refl, refl))
written-Ends rt not_opened file (done c) = inl (refl, λ d e. cc)
written-Ends rt (cut_after n) file (done c) = inr (inl (n, c, refl, refl, refl, refl))
written-Ends rt write file (invalid e) = inl (refl, λ d h. cc)
written-Ends rt write file broken = inl (refl, λ d h. cc)

Ends-imply :
    {P Q : PlatformConfig → Type 0} (rt : Runtime) (write : Write) (file : File)
    (r : File × Attempt)
    → ((d : PlatformConfig) → P d → Q d)
    → Ends rt write file P r
    → Ends rt write file Q r
Ends-imply rt write file r f (inl h) = inl h
Ends-imply rt write file r f (inr (inl (n, d, w, p, e, k))) = inr (inl (n, d, w, f d p, e, k))
Ends-imply rt write file r f (inr (inr (d, p, e, k))) = inr (inr (d, f d p, e, k))

-- A draft on the configuration that the file held: what the input gives, checked, with the
-- publication fields of that configuration.
pub record IsDraft (rt : Runtime) (now : Str) (file : File) (input : Json) (d : PlatformConfig)
    : Type 0 where
  pub current : PlatformConfig
  pub current_read : read_platform_config rt now file ≡ done current
  pub valid : IsConfig d
  pub checked : validate_platform_config now (obj (draft_input now current input)) ≡ accepted d
  pub published_at_kept : d.published_at ≡ current.published_at
  pub published_by_kept : d.published_by ≡ current.published_by
  pub dated : d.updated_at ≡ now

draft-done :
    (rt : Runtime) (now : Str) (input : Json) (file : File) (a : Attempt) (d : PlatformConfig)
    → is_empty (trim now) ≡ false
    → read_platform_config rt now file ≡ a
    → draft now input a ≡ done d
    → IsDraft rt now file input d
unfolding draft text_or
draft-done rt now input file (invalid e) d k r h = cc
draft-done rt now input file broken d k r h = cc
draft-done rt now input file (done current) d k r h =
    let valid = attempt-done _ d h in
    let (at, by, updated) = accepted_fields now (draft_input now current input) d valid in
    let (f, g, u) = draft_fields now current input in
    let old = read_platform_config-IsConfig rt now file current k r in
    record {
      current = current;
      current_read = r;
      valid = validate_platform_config-IsConfig now _ d k valid;
      checked = valid;
      published_at_kept =
          at ∙ ap filled_text f ∙ (null_or-text current.published_at).0 old.published_at;
      published_by_kept =
          by ∙ ap trimmed_text g ∙ (null_or-text current.published_by).1 old.published_by;
      dated =
          updated
          ∙ ap (λ o. text_or (filled_text o) now) u
          ∙ ap (λ o. text_or o now) (dated_text now k);
    }

pub save_platform_draft-Ends :
    (rt : Runtime) (now : Str) (write : Write) (input : Json) (file : File)
    → is_empty (trim now) ≡ false
    → Ends rt write file (IsDraft rt now file input) (save_platform_draft rt now write input file)
unfolding save_platform_draft
save_platform_draft-Ends rt now write input file k =
    Ends-imply rt write file _ (λ d h. draft-done rt now input file _ d k refl h)
      (written-Ends rt write file (draft now input (read_platform_config rt now file)))

-- A publication: the configuration that the file held, with the fields of the publication set.
pub record IsPublication (rt : Runtime) (now published_by : Str) (file : File) (d : PlatformConfig)
    : Type 0 where
  pub current : PlatformConfig
  pub current_read : read_platform_config rt now file ≡ done current
  pub valid : IsConfig d
  pub fields_set : d ≡ record current {
    published_at = some now;
    published_by = some published_by;
    updated_at = now;
  }

published-done :
    (rt : Runtime) (now published_by : Str) (file : File) (a : Attempt) (d : PlatformConfig)
    → is_empty (trim now) ≡ false
    → IsClean published_by
    → read_platform_config rt now file ≡ a
    → published now published_by a ≡ done d
    → IsPublication rt now published_by file d
unfolding published attempt
published-done rt now published_by file (invalid e) d k p r h = cc
published-done rt now published_by file broken d k p r h = cc
published-done rt now published_by file (done current) d k p r h =
    let next = record current {
      published_at = some now;
      published_by = some published_by;
      updated_at = now;
    } in
    let valid : IsConfig next =
      with_publication (some now) (some published_by) now
        (read_platform_config-IsConfig rt now file current k r) k p k in
    let same : next ≡ d =
      done-injective (rw (validate_platform_config-config_fields now next valid) at h) in
    record {
      current = current;
      current_read = r;
      valid = subst IsConfig same valid;
      fields_set = sym same;
    }

pub publish_platform_config-Ends :
    (rt : Runtime) (now published_by : Str) (write : Write) (file : File)
    → is_empty (trim now) ≡ false
    → IsClean published_by
    → Ends rt write file
        (IsPublication rt now published_by file)
        (publish_platform_config rt now write published_by file)
unfolding publish_platform_config
publish_platform_config-Ends rt now published_by write file k p =
    Ends-imply rt write file _ (λ d h. published-done rt now published_by file _ d k p refl h)
      (written-Ends rt write file (published now published_by (read_platform_config rt now file)))

read-content :
    (rt : Runtime) (later : Str) (file : File) (d : PlatformConfig)
    → IsConfig d
    → rt.parse (rt.stringify (obj (config_fields d)) ++ js "\n") ≡ some (obj (config_fields d))
    → file ≡ content (config_text rt d)
    → read_platform_config rt later file ≡ done d
unfolding read_platform_config parsed_config attempt config_text
read-content rt later file d valid p e =
    rw e (rw p (rw (validate_platform_config-config_fields later d valid) refl))

-- The configuration that a save or a publication returns is the one that a read at any later time
-- gives, if the time of the call is not blank, the publisher's name is trimmed and has content, and
-- the runtime parses the JSON text of that configuration, with a newline behind it, to the value
-- that the text was made from.
pub platform_store-read :
    (rt : Runtime) (now later published_by : Str) (write : Write) (input : Json) (file file' : File)
    (d : PlatformConfig)
    → is_empty (trim now) ≡ false
    → IsClean published_by
    → rt.parse (rt.stringify (obj (config_fields d)) ++ js "\n") ≡ some (obj (config_fields d))
    → (save_platform_draft rt now write input file ≡ (file', done d))
      ⊎ (publish_platform_config rt now write published_by file ≡ (file', done d))
    → read_platform_config rt later file' ≡ done d
unfolding save_platform_draft publish_platform_config
platform_store-read rt now later published_by write input file file' d k c p (inl h) =
    let (checked, held) = written_done rt write file file' _ d h in
    let draft = draft-done rt now input file _ d k refl checked in
    read-content rt later file' d draft.valid p held
platform_store-read rt now later published_by write input file file' d k c p (inr h) =
    let (checked, held) = written_done rt write file file' _ d h in
    let next = published-done rt now published_by file _ d k c refl checked in
    read-content rt later file' d next.valid p held
