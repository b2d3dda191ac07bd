-- ===== src/Tests/Memory.antt =====
-- The memory's theorems at concrete events, payloads and requests.
use frankai_online.Common.{
  Str, js, List, [], ◌∷◌, map, true, false, ◌≡◌, ◌↔◌, ◌⊎◌, refl, take, is_empty, is_space, trim,
  trim_start, trim_end, str_mem, ◌===◌, Runtime, missing, content, All, arith, none, some, null,
  str, obj, Fields, end, field, get, whole, truthy, accepted,
}
use mathlib.Core.List.{Perm}
use frankai_online.Memory.{StoredMemoryEvent}
use frankai_online.Memory.Words.{
  truncate, tokenize, normalize_for_search, collapse, is_word, split_spaces, is_term,
}
use frankai_online.Memory.Terms.{count_terms, read_term, or_zero, number}
use frankai_online.Memory.Terms.Counting.{occurrences, count_terms_lem}
use frankai_online.Memory.Metadata.{
  sanitize_metadata, searchable_text, entries_of, is_shown, is_sensitive, shorten,
}
use frankai_online.Memory.Metadata.Privacy.{
  metadata_noninterference, sanitize_metadata-IsShown, IsShown, without_sensitive, strip_fields,
}
use frankai_online.Memory.Index.{build_memory_index, MemoryIndex}
use frankai_online.Memory.Query.{MemorySearchPayload, validate_memory_search_payload}
use frankai_online.Memory.Query.Accepts.{IsSearch, validate_memory_search_payload_iff}
use frankai_online.Memory.Search.{search_memory_index, search_hits, as_result, Scored}
use frankai_online.Memory.Search.Ranking.{search_memory_index-IsRanked, IsRanked, Asymmetric}
use frankai_online.Memory.Search.Constructor.{search_constructor}
use frankai_online.Memory.Ingest.{MemoryIngestPayload, validate_memory_ingest_payload, stored_event}
use frankai_online.Memory.Ingest.Accepts.{IsIngest, validate_memory_ingest_payload-IsIngest}
use frankai_online.Memory.Queue.{stored_memory_event, append_memory_event, event_json}
use frankai_online.Memory.Queue.Events.{IsEvent}
use frankai_online.Memory.Queue.Append.{IsJsonLine, Appended, append_memory_event-read}
use frankai_online.Memory.Access.{
  Request, require_bearer_token, read_json_payload, get_max_payload_bytes, exceeds,
}
use frankai_online.Memory.Access.Guards.{Carries, require_bearer_token_iff}
use frankai_online.Memory.Endpoints.{Site, World, post_ingest}
use frankai_online.Memory.Endpoints.Effects.{IsUntouched, IsIngested, post_ingest_effect}
use frankai_online.Memory.Webhook.{post_mail}
use frankai_online.Memory.Webhook.Envelope.{SameEnvelope, post_mail_same}
use frankai_online.Tests.Host.{host}

memory : Unit {0}
unfolding tokenize search_memory_index build_memory_index sanitize_metadata searchable_text
    validate_memory_ingest_payload stored_memory_event append_memory_event read_json_payload
    get_max_payload_bytes require_bearer_token post_ingest str_mem trim trim_start trim_end is_space
    ◌===◌ get normalize_for_search collapse is_word split_spaces is_term truthy entries_of is_shown
    is_sensitive shorten truncate exceeds
memory = tt

abbrev metadata : Fields
metadata = field (js "folder") (str (js "inbox")) (field (js "Body") (str (js "secret")) end)

abbrev event : StoredMemoryEvent
event = record {
  id = js "e1";
  received_at = js "2026-01-01";
  source = js "mail";
  kind = js "note";
  text = some (str (js "a constructor test"));
  occurred_at = none;
  external_id = none;
  privacy = none;
  metadata = some (obj metadata);
}

abbrev ask : MemorySearchPayload
ask = record { query = js "constructor test"; limit = 5 }

abbrev index : MemoryIndex
index = build_memory_index (host null) (js "now") (event ∷ []) (js "events.jsonl")

search_constructor_example : (search_memory_index (host null) index ask).results ≡ []
unfolding memory
search_constructor_example =
    search_constructor (host null) (js "now") (js "events.jsonl") (event ∷ []) ask refl

longer_first : Asymmetric (host null)
longer_first a b h = ground arith

not_constructor : js "test" ≡ js "constructor" → ⊥
not_constructor e = ground arith

abbrev later_event : StoredMemoryEvent
later_event = record event { id = js "e2"; text = some (str (js "a test of a test")) }

-- A search that both events answer.
abbrev answered_ask : MemorySearchPayload
answered_ask = record { query = js "test"; limit = 5 }

abbrev two_events : MemoryIndex
two_events =
    build_memory_index (host null) (js "now") (event ∷ later_event ∷ []) (js "events.jsonl")

search_memory_index-IsRanked_example :
    (ranking : List Scored) × ((search_memory_index (host null) two_events answered_ask).results
      ≡ map as_result (take 5 ranking))
    × IsRanked (host null) ranking
    × Perm ranking (search_hits (host null) two_events answered_ask)
search_memory_index-IsRanked_example =
    search_memory_index-IsRanked (host null) two_events answered_ask longer_first

count_terms_lem_example :
    or_zero (read_term (count_terms (host null) (js "a test of a test")) (js "test"))
    ≡ number (occurrences (js "test") (tokenize (host null) (js "a test of a test")))
count_terms_lem_example =
    count_terms_lem (host null) (js "a test of a test") (js "test") not_constructor

metadata_noninterference_example :
    (searchable_text (host null) (without_sensitive (host null) metadata event)
      ≡ searchable_text (host null) event)
    × (sanitize_metadata (host null) (some (obj (strip_fields (host null) metadata)))
        ≡ sanitize_metadata (host null) event.metadata)
metadata_noninterference_example = metadata_noninterference (host null) metadata event refl

sanitize_metadata-IsShown_example : All (IsShown (host null)) ((js "folder", str (js "inbox")) ∷ [])
unfolding memory
sanitize_metadata-IsShown_example =
    sanitize_metadata-IsShown (host null) (some (obj metadata))
      ((js "folder", str (js "inbox")) ∷ []) refl

abbrev query_fields : Fields
query_fields = field (js "query") (str (js " mail ")) (field (js "limit") (whole 3) end)

abbrev query : MemorySearchPayload
query = record { query = js "mail"; limit = 3 }

validate_memory_search_payload_iff_example :
    (validate_memory_search_payload (obj query_fields) ≡ accepted query)
    ↔ IsSearch (obj query_fields) query
validate_memory_search_payload_iff_example =
    validate_memory_search_payload_iff (obj query_fields) query

abbrev note_fields : Fields
note_fields = field (js "source") (str (js " mail ")) (
    field (js "kind") (str (js "note"))
      (field (js "text") (str (js "hello")) (field (js "privacy") (str (js "internal")) end)))

abbrev note : MemoryIngestPayload
note = record {
  source = js "mail";
  kind = js "note";
  text = some (js "hello");
  occurred_at = none;
  external_id = none;
  privacy = some (js "internal");
  metadata = none;
  external_id_first = false;
}

note_accepted : validate_memory_ingest_payload (host null) (obj note_fields) ≡ accepted note
unfolding memory
note_accepted = refl

validate_memory_ingest_payload-IsIngest_example : IsIngest (host null) note
validate_memory_ingest_payload-IsIngest_example =
    validate_memory_ingest_payload-IsIngest (host null) (obj note_fields) note note_accepted

event-IsEvent : IsEvent event
unfolding memory
event-IsEvent = record { id = refl; received_at = refl; source = refl; kind = refl }

abbrev kept : StoredMemoryEvent
kept = stored_event (js "e2") (js "2026-01-02") note

abbrev writer : Runtime
writer = host (event_json false kept)

kept-IsJsonLine : IsJsonLine writer (event_json false kept)
unfolding memory
kept-IsJsonLine = record { one_line = (refl, (refl, tt)); not_blank = refl; parsed = refl }

note-IsIngest : IsIngest writer note
unfolding memory
note-IsIngest = validate_memory_ingest_payload-IsIngest writer (obj note_fields) note refl

append_memory_event-read_example :
    (raw' : Str) × (append_memory_event writer true
        (js "e2")
        (js "2026-01-02")
        note
        (content (js "{}\n"))
      ≡ some (kept, content raw'))
    × Appended writer (js "{}\n") raw' kept
unfolding memory
append_memory_event-read_example =
    append_memory_event-read writer (js "e2") (js "2026-01-02") (js "{}\n") note note-IsIngest refl
      refl refl kept-IsJsonLine

abbrev request : Request
request = record {
  authorization = some (js "Bearer s3cret");
  content_length = none;
  body = js "{}";
}

require_bearer_token_iff_example :
    (require_bearer_token (host null) request (some (js "s3cret")) ≡ none) ↔ (
      (secret : Str) × (some (js "s3cret") ≡ some secret)
      × (is_empty secret ≡ false)
      × Carries (host null) request.authorization secret)
require_bearer_token_iff_example = require_bearer_token_iff (host null) request (some (js "s3cret"))

abbrev world : World
world = record {
  ingest_secret = some (js "s3cret");
  ingest_max_bytes = none;
  search_max_bytes = none;
  webhook_secret = some (js "s3cret");
  webhook_max_bytes = none;
  ingest_from_webhook = some (js "true");
  events_file = js "events.jsonl";
  id = js "e2";
  received_at = js "2026-01-02";
  built_at = js "2026-01-02";
  index_writable = true;
  queue_appendable = true;
}

abbrev site : Site
site = record { queue = missing; index = none }

post_ingest_effect_example :
    IsUntouched
      (host (obj note_fields))
      world
      request
      site
      (post_ingest (host (obj note_fields)) world request site)
    ⊎ IsIngested
        (host (obj note_fields))
        world
        request
        site
        (post_ingest (host (obj note_fields)) world request site)
post_ingest_effect_example = post_ingest_effect (host (obj note_fields)) world request site

abbrev mail : Str → Fields
mail subject =
    field (js "event") (str (js "message.received"))
      (field (js "id") (str (js "m1")) (field (js "subject") (str subject) end))

abbrev mailbox : Runtime
mailbox = record (host null) { parse = λ s. some (obj (mail s)) }

mails_same : SameEnvelope (mail (js "first")) (mail (js "second"))
unfolding memory
mails_same = record {
  event = refl;
  event_type = refl;
  type_name = refl;
  id = refl;
  message_id = refl;
  timestamp = refl;
}

abbrev sent : Str → Request
sent body = record request { body = body }

post_mail_same_example :
    post_mail mailbox world (sent (js "first")) site
    ≡ post_mail mailbox world (sent (js "second")) site
unfolding memory
post_mail_same_example =
    post_mail_same mailbox world site (sent (js "first")) (sent (js "second")) (mail (js "first"))
      (mail (js "second")) refl refl refl mails_same
