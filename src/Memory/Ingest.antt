-- ===== src/Memory/Ingest.antt =====
-- lib/memory/store.ts: checking the payload of an ingest request.
pub mod Accepts
use frankai_online.Common.{
  Str, js, List, [], ◌∷◌, map, if◌then◌else◌, is_empty, trim, str_mem, Runtime, Option, none, some,
  Json, str, obj, Fields, get, Checked, accepted, refused, ◌>>=◌, Bool, false,
}
use mathlib.Core.Option
use frankai_online.Memory.{StoredMemoryEvent}

abbrev pub privacy_levels : List Str
privacy_levels = js "public" ∷ js "internal" ∷ js "private" ∷ js "restricted" ∷ []

-- `MemoryIngestPayload`, with the order in which `externalId` and `occurredAt` stand in the object
pub record MemoryIngestPayload : Type 0 where
  pub source : Str
  pub kind : Str
  pub text : Option Str
  pub occurred_at : Option Str
  pub external_id : Option Str
  pub privacy : Option Str
  pub metadata : Option Fields
  pub external_id_first : Bool

-- `typeof value !== 'string' || cleanString(value).length === 0`
unfoldable pub required_text : Option Json → Str → Checked Str
required_text (some (str s)) message =
    if is_empty (trim s) then refused message else accepted (trim s)
required_text _ message = refused message

-- A text without content is left out.
check_text : Option Json → Option Str
check_text (some (str s)) = if is_empty (trim s) then none else some s
check_text _ = none

check_occurred_at : Runtime → Option Json → Checked (Option Str)
check_occurred_at rt (some (str s)) =
    if rt.is_date s then accepted (some s) else refused (js "occurredAt must be an ISO date string")
check_occurred_at rt _ = accepted none

check_external_id : Option Json → Option Str
check_external_id (some (str s)) = if is_empty (trim s) then none else some (trim s)
check_external_id _ = none

check_privacy : Option Json → Checked (Option Str)
check_privacy (some (str s)) =
    if str_mem s privacy_levels then accepted (some s) else refused (js "privacy is invalid")
check_privacy _ = accepted none

check_metadata : Option Json → Checked (Option Fields)
check_metadata none = accepted none
check_metadata (some (obj fs)) = accepted (some fs)
check_metadata (some _) = refused (js "metadata must be an object")

unfoldable pub validate_memory_ingest_payload : Runtime → Json → Checked MemoryIngestPayload
unfolding required_text check_text check_occurred_at check_external_id check_privacy check_metadata
validate_memory_ingest_payload rt (obj fs) = do
  source ← required_text (get fs (js "source")) (js "source is required")
  kind ← required_text (get fs (js "kind")) (js "kind is required")
  occurred_at ← check_occurred_at rt (get fs (js "occurredAt"))
  privacy ← check_privacy (get fs (js "privacy"))
  metadata ← check_metadata (get fs (js "metadata"))
  accepted (record {
    source = source;
    kind = kind;
    text = check_text (get fs (js "text"));
    occurred_at = occurred_at;
    external_id = check_external_id (get fs (js "externalId"));
    privacy = privacy;
    metadata = metadata;
    external_id_first = false;
  })
validate_memory_ingest_payload rt _ = refused (js "Invalid payload")

-- The event that `appendMemoryEvent` writes and returns: the payload behind an id and a time.
unfoldable pub stored_event : Str → Str → MemoryIngestPayload → StoredMemoryEvent
stored_event id received_at payload = record {
  id = id;
  received_at = received_at;
  source = payload.source;
  kind = payload.kind;
  text = Option.map str payload.text;
  occurred_at = Option.map str payload.occurred_at;
  external_id = Option.map str payload.external_id;
  privacy = Option.map str payload.privacy;
  metadata = Option.map obj payload.metadata;
}
