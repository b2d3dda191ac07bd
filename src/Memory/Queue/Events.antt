-- ===== src/Memory/Queue/Events.antt =====
-- lib/memory/index.ts: reading an event from the JSON value that it is written as.
use frankai_online.Common.{false, ◌≡◌, is_empty, trim, ◌===◌, arith, some, get, Bool, true}
use frankai_online.Memory.{StoredMemoryEvent}
use frankai_online.Memory.Queue.{opt, event_json, stored_memory_event, origin_fields}

-- The strings that `isStoredMemoryEvent` asks for have content.
pub record IsEvent (e : StoredMemoryEvent) : Type 0 where
  pub id : is_empty (trim e.id) ≡ false
  pub received_at : is_empty (trim e.received_at) ≡ false
  pub source : is_empty (trim e.source) ≡ false
  pub kind : is_empty (trim e.kind) ≡ false

-- Reading the JSON value of an event whose four strings have content gives the event.
pub stored_memory_event-event_json :
    (external_id_first : Bool) (e : StoredMemoryEvent)
    → IsEvent e
    → stored_memory_event (event_json external_id_first e) ≡ some e
unfolding stored_memory_event event_json origin_fields get opt ◌===◌
stored_memory_event-event_json true e h = ground arith
stored_memory_event-event_json false e h = ground arith
