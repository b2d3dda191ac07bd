-- ===== src/Memory/Queue.antt =====
-- lib/memory/store.ts and index.ts: the queue file of events, one JSON text to a line, written by
-- `appendMemoryEvent` and read by `readMemoryEventsFromQueue`.
pub mod Events
pub mod Append
use frankai_online.Common.{
  ℕ, suc, Str, js, List, [], ◌∷◌, ◌++◌, if◌then◌else◌, is_empty, trim, Runtime, File, missing,
  unreadable, content, Option, none, some, Json, str, obj, Fields, end, field, get, split_on, ◌>>=◌,
  Bool, true, false,
}
use frankai_online.Memory.{StoredMemoryEvent}
use frankai_online.Memory.Ingest.{MemoryIngestPayload, stored_event}

opt : Str → Option Json → Fields → Fields
opt k none fs = fs
opt k (some v) fs = field k v fs

-- The two members whose order differs between the payloads.
origin_fields : Bool → StoredMemoryEvent → Fields → Fields
origin_fields true e fs =
    opt (js "externalId") e.external_id (opt (js "occurredAt") e.occurred_at fs)
origin_fields false e fs =
    opt (js "occurredAt") e.occurred_at (opt (js "externalId") e.external_id fs)

-- `JSON.stringify` leaves out the fields that are `undefined`; the order is that of the payload.
unfoldable pub event_json : Bool → StoredMemoryEvent → Json
unfolding opt origin_fields
event_json external_id_first e = obj (
    field (js "id") (str e.id) (
      field (js "receivedAt") (str e.received_at) (
        field (js "source") (str e.source) (
          field (js "kind") (str e.kind) (
            opt (js "text") e.text (
              origin_fields external_id_first e
                (opt (js "privacy") e.privacy (opt (js "metadata") e.metadata end))))))))

unfoldable pub filled : Option Json → Option Str
filled (some (str s)) = if is_empty (trim s) then none else some s
filled _ = none

infixl 5 ◌>>=?◌
abbrev ◌>>=?◌ : {A B : Type 0} → Option A → (A → Option B) → Option B
none >>=? f = none
some a >>=? f = f a

-- `isStoredMemoryEvent(parsed)`, with the event that the line then stands for.
unfoldable pub stored_memory_event : Json → Option StoredMemoryEvent
unfolding filled
stored_memory_event (obj fs) = filled (get fs (js "id")) >>=? λ id.
    filled (get fs (js "receivedAt")) >>=? λ received_at.
    filled (get fs (js "source")) >>=? λ source. filled (get fs (js "kind")) >>=? λ kind.
    some (record {
      id = id;
      received_at = received_at;
      source = source;
      kind = kind;
      text = get fs (js "text");
      occurred_at = get fs (js "occurredAt");
      external_id = get fs (js "externalId");
      privacy = get fs (js "privacy");
      metadata = get fs (js "metadata");
    })
stored_memory_event _ = none

-- What the loop does with a line.
pub data Line : Type 0 where
  blank skipped : Line
  event : StoredMemoryEvent → Line

unfoldable pub classify : Option StoredMemoryEvent → Line
classify none = skipped
classify (some e) = event e

unfoldable pub parsed_line : Option Json → Line
parsed_line none = skipped
parsed_line (some v) = classify (stored_memory_event v)

unfoldable pub read_line : Runtime → Str → Line
unfolding parsed_line classify
read_line rt line = if is_empty (trim line) then blank else parsed_line (rt.parse line)

unfoldable pub add_line : Line → List StoredMemoryEvent × ℕ → List StoredMemoryEvent × ℕ
add_line blank (events, skipped_count) = (events, skipped_count)
add_line skipped (events, skipped_count) = (events, suc skipped_count)
add_line (event e) (events, skipped_count) = (e ∷ events, skipped_count)

-- The events of the lines, in order, and the number of lines that hold none.
unfoldable pub read_lines : Runtime → List Str → List StoredMemoryEvent × ℕ
unfolding add_line
read_lines rt [] = ([], 0)
read_lines rt (line ∷ lines) = add_line (read_line rt line) (read_lines rt lines)

-- `none` is the exception that is thrown on.
unfoldable pub read_memory_events_from_queue : Runtime → File → Option (List StoredMemoryEvent × ℕ)
read_memory_events_from_queue rt missing = some ([], 0)
read_memory_events_from_queue rt unreadable = none
read_memory_events_from_queue rt (content raw) = some (read_lines rt (split_on 10 raw))

-- The line that is appended.
unfoldable pub event_line : Runtime → Bool → StoredMemoryEvent → Str
event_line rt external_id_first e = rt.stringify (event_json external_id_first e) ++ js "\n"

-- The text of the queue file with a line more; `appendFile` creates a file that is missing.
unfoldable pub with_line : Str → File → Option File
with_line line missing = some (content line)
with_line line unreadable = none
with_line line (content raw) = some (content (raw ++ line))

-- `none` is an exception: the file cannot be opened, or the line cannot be written to it.
unfoldable pub append_memory_event :
    Runtime → Bool → Str → Str → MemoryIngestPayload → File → Option (StoredMemoryEvent × File)
append_memory_event rt appendable id now payload file =
    let e = stored_event id now payload in
    if appendable
    then with_line (event_line rt payload.external_id_first e) file >>=? (λ file'. some (e, file'))
    else none
