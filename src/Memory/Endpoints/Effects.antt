-- ===== src/Memory/Endpoints/Effects.antt =====
-- app/api/memory: what the handlers do to the files.
use frankai_online.Common.{
  ℕ, ◌*◌, Str, ◌≡◌, ◌≢◌, ◌⊎◌, refl, inl, inr, Runtime, File, arith, Option, none, some, Json, Reply,
  Outcome, replied, thrown, Checked, accepted, refused,
}
use frankai_online.Memory.{StoredMemoryEvent}
use frankai_online.Memory.Ingest.{MemoryIngestPayload, validate_memory_ingest_payload, stored_event}
use frankai_online.Memory.Queue.{read_memory_events_from_queue, append_memory_event}
use frankai_online.Memory.Queue.Append.{append_memory_event-event}
use frankai_online.Memory.Access.{
  Request, require_bearer_token, Payload, payload, rejected, read_json_payload,
  get_max_payload_bytes,
}
use frankai_online.Memory.Access.Guards.{require_bearer_token-status, read_json_payload-status}
use frankai_online.Memory.Endpoints.{
  Site, World, rebuild_memory_index, post_ingest, ingest_checked, ingest_parsed, ingest_validated,
  ingest_appended, accepted_event, ingest_reply,
}

-- Next.js answers an exception with 500.
abbrev pub status_of : Outcome → ℕ
status_of (replied reply) = reply.status
status_of thrown = 500

-- How an accepted request came about: it carries the configured secret, its body is within the
-- limit and holds a payload that the checks accept, and the file could be appended to.
pub record Ingested (rt : Runtime) (w : World) (request : Request) (site site' : Site)
    : Type 0 where
  pub passed : require_bearer_token rt request w.ingest_secret ≡ none
  pub value : Json
  pub read :
      read_json_payload rt request (get_max_payload_bytes rt w.ingest_max_bytes (128 * 1024))
      ≡ payload value
  pub ingest : MemoryIngestPayload
  pub valid : validate_memory_ingest_payload rt value ≡ accepted ingest
  pub appended :
      append_memory_event rt w.queue_appendable w.id w.received_at ingest site.queue
      ≡ some (stored_event w.id w.received_at ingest, site'.queue)

-- The queue file of a site after an ingest is that of the append, whatever the rebuild does.
accepted_event-queue :
    (rt : Runtime) (w : World) (id : Str) (site : Site)
    → (accepted_event id site (rebuild_memory_index rt w site)).0.queue ≡ site.queue
unfolding accepted_event rebuild_memory_index
accepted_event-queue rt w id site = ground (arith, read_memory_events_from_queue rt site.queue)

module _ (rt : Runtime) (w : World) (request : Request) (site : Site) where
  -- The two ways in which a request can end.
  abbrev pub IsUntouched : Site × Outcome → Type 0
  IsUntouched (site', o) = (site' ≡ site) × (status_of o ≢ 202)

  abbrev pub IsIngested : Site × Outcome → Type 0
  IsIngested (site', o) = (status_of o ≡ 202) × Ingested rt w request site site'

  abbrev Effect : Site × Outcome → Type 0
  Effect r = IsUntouched r ⊎ IsIngested r

  accepted_event-status :
      (id : Str) (site' : Site) (o : Option Site) → status_of (accepted_event id site' o).1 ≡ 202
  unfolding accepted_event ingest_reply
  accepted_event-status id site' none = refl
  accepted_event-status id site' (some s) = refl

  module _ (passed : require_bearer_token rt request w.ingest_secret ≡ none) (v : Json)
      (read : read_json_payload rt request
          (get_max_payload_bytes rt w.ingest_max_bytes (128 * 1024))
        ≡ payload v) where
    appended-Effect :
        (p : MemoryIngestPayload) (o : Option (StoredMemoryEvent × File))
        → validate_memory_ingest_payload rt v ≡ accepted p
        → append_memory_event rt w.queue_appendable w.id w.received_at p site.queue ≡ o
        → Effect (ingest_appended rt w site o)
    unfolding ingest_appended
    appended-Effect p none h e = inl (refl, omega arith)
    appended-Effect p (some (event, queue)) h e =
        let site' = record site { queue = queue } in
        inr (
          accepted_event-status event.id site' (rebuild_memory_index rt w site'),
          record {
            passed = passed;
            value = v;
            read = read;
            ingest = p;
            valid = h;
            appended = rw (accepted_event-queue rt w event.id site') (
                append_memory_event-event rt w.queue_appendable w.id w.received_at p site.queue
                  queue event e);
          },
        )

    validated-Effect :
        (c : Checked MemoryIngestPayload)
        → validate_memory_ingest_payload rt v ≡ c
        → Effect (ingest_validated rt w site c)
    unfolding ingest_validated
    validated-Effect (refused message) h = inl (refl, omega arith)
    validated-Effect (accepted p) h = appended-Effect p _ h refl

  parsed-Effect :
      require_bearer_token rt request w.ingest_secret ≡ none
      → (p : Payload)
      → read_json_payload rt request (get_max_payload_bytes rt w.ingest_max_bytes (128 * 1024)) ≡ p
      → Effect (ingest_parsed rt w site p)
  unfolding ingest_parsed
  parsed-Effect passed (rejected reply) h =
      inl (refl, omega (arith, read_json_payload-status rt request _ reply h))
  parsed-Effect passed (payload v) h = validated-Effect passed v h _ refl

  checked-Effect :
      (o : Option Reply)
      → require_bearer_token rt request w.ingest_secret ≡ o
      → Effect (ingest_checked rt w request site o)
  unfolding ingest_checked
  checked-Effect (some reply) h =
      inl (refl, omega (arith, require_bearer_token-status rt request _ reply h))
  checked-Effect none h = parsed-Effect h _ refl

-- Every request to the ingest endpoint either leaves both files alone and is answered with another
-- status than 202, or is answered with 202 and has appended the event of an accepted payload to
-- the queue.
pub post_ingest_effect :
    (rt : Runtime) (w : World) (request : Request) (site : Site)
    → IsUntouched rt w request site (post_ingest rt w request site)
      ⊎ IsIngested rt w request site (post_ingest rt w request site)
unfolding post_ingest
post_ingest_effect rt w request site = checked-Effect rt w request site _ refl
