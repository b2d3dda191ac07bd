-- ===== src/Memory/Endpoints.antt =====
-- app/api/memory/ingest and app/api/memory/search: the handlers over the queue file and the index
-- file.
pub mod Effects
use frankai_online.Common.{
  ℕ, ◌*◌, Str, js, List, Bool, true, false, if◌then◌else◌, Runtime, File, Option, none, some, Json,
  bool, str, obj, end, field, Reply, error_reply, Outcome, replied, thrown, Checked, accepted,
  refused,
}
use frankai_online.Memory.{StoredMemoryEvent}
use frankai_online.Memory.Index.{MemoryIndex, build_memory_index}
use frankai_online.Memory.Query.{validate_memory_search_payload}
use frankai_online.Memory.Search.{MemorySearchResponse, search_memory_index}
use frankai_online.Memory.Ingest.{MemoryIngestPayload, validate_memory_ingest_payload}
use frankai_online.Memory.Queue.{read_memory_events_from_queue, append_memory_event}
use frankai_online.Memory.Access.{
  Request, require_bearer_token, get_max_payload_bytes, Payload, payload, rejected,
  read_json_payload,
}

-- The files. `none` is an index that cannot be read or has another version; its text is that of
-- the value, which is written whole to a temporary file and moved into place.
pub record Site : Type 0 where
  pub queue : File
  pub index : Option MemoryIndex

-- What a request meets beside the files: the environment, a fresh id, the clock, and whether the
-- index file can be written and the queue file be appended to.
pub record World : Type 0 where
  pub ingest_secret : Option Str
  pub ingest_max_bytes : Option Str
  pub search_max_bytes : Option Str
  pub webhook_secret : Option Str
  pub webhook_max_bytes : Option Str
  pub ingest_from_webhook : Option Str
  pub events_file : Str
  pub id : Str
  pub received_at : Str
  pub built_at : Str
  pub index_writable : Bool
  pub queue_appendable : Bool

-- `rebuildMemoryIndex()`; `none` is an exception, which leaves the old index in place.
unfoldable pub rebuilt : Runtime → World → Site → Option (List StoredMemoryEvent × ℕ) → Option Site
rebuilt rt w site none = none
rebuilt rt w site (some (events, skipped_count)) =
    let index = build_memory_index rt w.built_at events w.events_file in
    if w.index_writable
    then some (record site { index = some (record index { skipped_count = skipped_count }) })
    else none

unfoldable pub rebuild_memory_index : Runtime → World → Site → Option Site
unfolding rebuilt
rebuild_memory_index rt w site = rebuilt rt w site (read_memory_events_from_queue rt site.queue)

-- `{ received: true, indexed, id }`
ingest_reply : Bool → Str → Reply
ingest_reply indexed id = record {
  status = 202;
  body = obj (
      field (js "received") (bool true)
        (field (js "indexed") (bool indexed) (field (js "id") (str id) end)));
}

-- The event stays accepted where the rebuild fails.
accepted_event : Str → Site → Option Site → Site × Outcome
accepted_event id site none = (site, replied (ingest_reply false id))
accepted_event id site (some site') = (site', replied (ingest_reply true id))

ingest_appended : Runtime → World → Site → Option (StoredMemoryEvent × File) → Site × Outcome
ingest_appended rt w site none = (site, thrown)
ingest_appended rt w site (some (event, queue)) =
    let site' = record site { queue = queue } in
    accepted_event event.id site' (rebuild_memory_index rt w site')

ingest_validated : Runtime → World → Site → Checked MemoryIngestPayload → Site × Outcome
ingest_validated rt w site (refused message) = (site, replied (error_reply 400 message))
ingest_validated rt w site (accepted p) =
    ingest_appended rt w site
      (append_memory_event rt w.queue_appendable w.id w.received_at p site.queue)

ingest_parsed : Runtime → World → Site → Payload → Site × Outcome
ingest_parsed rt w site (rejected reply) = (site, replied reply)
ingest_parsed rt w site (payload v) =
    ingest_validated rt w site (validate_memory_ingest_payload rt v)

ingest_checked : Runtime → World → Request → Site → Option Reply → Site × Outcome
ingest_checked rt w request site (some reply) = (site, replied reply)
ingest_checked rt w request site none =
    ingest_parsed rt w site
      (read_json_payload rt request (get_max_payload_bytes rt w.ingest_max_bytes (128 * 1024)))

-- `POST` of app/api/memory/ingest/route.ts
unfoldable pub post_ingest : Runtime → World → Request → Site → Site × Outcome
unfolding ingest_reply accepted_event ingest_appended ingest_validated ingest_parsed ingest_checked
post_ingest rt w request site =
    ingest_checked rt w request site (require_bearer_token rt request w.ingest_secret)

pub data SearchOutcome : Type 0 where
  found : MemorySearchResponse → SearchOutcome
  failed : Reply → SearchOutcome

search_index : Runtime → Option MemoryIndex → Json → SearchOutcome
search_index rt index v = elim (validate_memory_search_payload v) [
  | refused message ↦ failed (error_reply 400 message)
  | accepted p ↦ elim index [
    | none ↦
        failed (error_reply 503 (js "Memory index is unavailable; rebuild it before searching"))
    | some i ↦ found (search_memory_index rt i p)
  ]
]

search_parsed : Runtime → Site → Payload → SearchOutcome
search_parsed rt site (rejected reply) = failed reply
search_parsed rt site (payload v) = search_index rt site.index v

search_checked : Runtime → World → Request → Site → Option Reply → SearchOutcome
search_checked rt w request site (some reply) = failed reply
search_checked rt w request site none =
    search_parsed rt site
      (read_json_payload rt request (get_max_payload_bytes rt w.search_max_bytes (16 * 1024)))

-- `POST` of app/api/memory/search/route.ts; it changes no file.
unfoldable pub post_search : Runtime → World → Request → Site → SearchOutcome
unfolding search_index search_parsed search_checked
post_search rt w request site =
    search_checked rt w request site (require_bearer_token rt request w.ingest_secret)
