-- ===== src/Tests/Scripts.antt =====
-- The script that rebuilds the index, at a queue of one event, and the script that creates an
-- administrator.
use frankai_online.Common.{
  ℕ, js, List, [], ◌∷◌, true, ◌≡◌, refl, if◌then◌else◌, is_space, trim, trim_start, trim_end, ◌===◌,
  starts_with, missing, content, Option, none, some, null, str, obj, Fields, end, field, get,
  split_on, add_to_first,
}
use frankai_online.Memory.Endpoints.{Site, World, rebuild_memory_index}
use frankai_online.Memory.Queue.{
  filled, stored_memory_event, classify, parsed_line, read_line, add_line, read_lines,
  read_memory_events_from_queue,
}
use frankai_online.Scripts.RebuildIndex.{is_stored_memory_event, has_text}
use frankai_online.Scripts.RebuildIndex.Queue.{
  rebuild_main, read_memory_events, read_each, add_line_event, push_event,
}
use frankai_online.Scripts.RebuildIndex.Equivalence.{
  IsPlainQueue, site_after, rebuild_main-rebuild_memory_index,
}
use frankai_online.Tests.Host.{host}
use frankai_online.Auth.Accounts.{find}
use frankai_online.Auth.Refresh.{is_some}
use frankai_online.Auth.Config.{is_set}
use frankai_online.Auth.Invitations.{is_address}
use frankai_online.Scripts.AdminCreate.{
  BootstrapRun, BootstrapStore, finished, unfinished, email_argument, read_secret, store_chosen,
  use_postgres,
}
use frankai_online.Scripts.AdminCreate.Stores.{create_admin, created_with, create_in_table}

abbrev world : World
world = record {
  ingest_secret = none;
  ingest_max_bytes = none;
  search_max_bytes = none;
  webhook_secret = none;
  webhook_max_bytes = none;
  ingest_from_webhook = none;
  events_file = js "events.jsonl";
  id = js "e2";
  received_at = js "2026-01-02";
  built_at = js "2026-01-02";
  index_writable = true;
  queue_appendable = true;
}

abbrev event_fields : Fields
event_fields = field (js "id") (str (js "e1")) (
    field (js "receivedAt") (str (js "2026-01-01")) (
      field (js "source") (str (js "mail")) (
        field (js "kind") (str (js "note"))
          (field (js "metadata") (obj (field (js "folder") (str (js "inbox")) end)) end))))

abbrev site : Site
site = record { queue = content (js "line\n\n"); index = none }

read_events : Option (List Fields × ℕ)
read_events = read_memory_events (host (obj event_fields)) site.queue

read_events_test : read_events ≡ some (event_fields ∷ [], 0)
unfolding read_events read_memory_events read_each add_line_event push_event is_stored_memory_event
    has_text split_on trim trim_start trim_end is_space get ◌===◌ add_to_first
read_events_test = refl

queue-IsPlainQueue :
    IsPlainQueue (read_memory_events_from_queue (host (obj event_fields)) site.queue)
unfolding read_memory_events_from_queue read_lines split_on read_line add_line parsed_line classify
    stored_memory_event filled get ◌===◌ trim trim_start trim_end is_space add_to_first
queue-IsPlainQueue = (refl, tt)

rebuild_main-rebuild_memory_index_example :
    site_after (rebuild_main (host (obj event_fields)) world (js "index.json") site)
    ≡ rebuild_memory_index (host (obj event_fields)) world site
rebuild_main-rebuild_memory_index_example =
    rebuild_main-rebuild_memory_index (host (obj event_fields)) world (js "index.json") site
      queue-IsPlainQueue

abbrev bootstrap : BootstrapRun
bootstrap = record {
  env = λ name.
      if name === js "AUTH_DATABASE_ENABLED" then some (js "true") else some (js "postgres");
  argv = js "node" ∷ js "admin-create.mjs" ∷ js "--email" ∷ js "Ann@example.org" ∷ [];
  keys = js "c" ∷ js "orrect horsf" ∷ (127 ∷ []) ∷ js "e" ∷ js "\n" ∷ [];
  hash_password = λ s. s;
  fresh_id = js "u1";
  now_text = js "2026-01-01";
  table_writable = true;
  file_writable = true;
  mode_settable = true;
}

abbrev no_users : BootstrapStore
no_users = record { users = []; audit_events = []; users_file = missing }

bootstrap_test : (create_admin (host null) bootstrap no_users).1 ≡ finished
unfolding create_admin created_with create_in_table email_argument read_secret store_chosen
    use_postgres is_set ◌===◌ is_address find is_some starts_with trim trim_start trim_end is_space
bootstrap_test = refl

-- A line that comes in one chunk does not end the entry.
one_chunk_test : read_secret (js "correct horse\n" ∷ []) [] ≡ unfinished
unfolding read_secret ◌===◌
one_chunk_test = refl
