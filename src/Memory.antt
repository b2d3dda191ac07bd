-- ===== src/Memory.antt =====
-- lib/memory: events accepted for ingest, the index built from them, and lexical search.
pub mod Words
pub mod Metadata
pub mod Terms
pub mod Index
pub mod Query
pub mod Search
pub mod Ingest
pub mod Queue
pub mod Access
pub mod Endpoints
pub mod Webhook
use frankai_online.Common.{Str, Json, Option}

-- lib/memory/types.ts. Optional fields of an event that was read from the queue file keep
-- whatever JSON value the line holds, as the source checks only the four strings.
pub record StoredMemoryEvent : Type 0 where
  pub id : Str
  pub received_at : Str
  pub source : Str
  pub kind : Str
  pub text : Option Json
  pub occurred_at : Option Json
  pub external_id : Option Json
  pub privacy : Option Json
  pub metadata : Option Json
