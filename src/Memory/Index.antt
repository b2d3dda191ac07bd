-- ===== src/Memory/Index.antt =====
-- lib/memory/index.ts and the types of the index: one entry for each event.
use frankai_online.Common.{ℕ, Str, List, map, length, Runtime, Option, none, some, Json, str}
use frankai_online.Memory.{StoredMemoryEvent}
use frankai_online.Memory.Words.{truncate}
use frankai_online.Memory.Metadata.{searchable_text, sanitize_metadata, max_index_text_chars}
use frankai_online.Memory.Terms.{Terms, count_terms}

pub record MemoryIndexEntry : Type 0 where
  pub id : Str
  pub received_at : Str
  pub source : Str
  pub kind : Str
  pub occurred_at : Option Json
  pub external_id : Option Json
  pub privacy : Option Json
  pub text : Option Str
  pub metadata : Option (List (Str × Json))
  pub searchable_text : Str
  pub terms : Terms

-- `version` is 1 in every value of this type.
pub record MemoryIndex : Type 0 where
  pub built_at : Str
  pub source_file : Str
  pub event_count : ℕ
  pub skipped_count : ℕ
  pub entries : List MemoryIndexEntry

unfoldable pub index_text : Option Json → Option Str
index_text (some (str s)) = some (truncate s max_index_text_chars)
index_text _ = none

-- The body of the loop of `buildMemoryIndex`.
unfoldable pub index_entry : Runtime → StoredMemoryEvent → MemoryIndexEntry
unfolding index_text
index_entry rt event = record {
  id = event.id;
  received_at = event.received_at;
  source = event.source;
  kind = event.kind;
  occurred_at = event.occurred_at;
  external_id = event.external_id;
  privacy = event.privacy;
  text = index_text event.text;
  metadata = sanitize_metadata rt event.metadata;
  searchable_text = searchable_text rt event;
  terms = count_terms rt (searchable_text rt event);
}

-- `now` is the time of the build.
unfoldable pub build_memory_index : Runtime → Str → List StoredMemoryEvent → Str → MemoryIndex
build_memory_index rt now events source_file = record {
  built_at = now;
  source_file = source_file;
  event_count = length events;
  skipped_count = 0;
  entries = map (index_entry rt) events;
}
