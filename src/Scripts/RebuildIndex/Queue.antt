-- ===== src/Scripts/RebuildIndex/Queue.antt =====
-- scripts/rebuild-memory-index.mjs: reading the queue and writing the index.
use frankai_online.Common.{
  ℕ, ◌+◌, Str, List, [], ◌∷◌, ◌++◌, map, if◌then◌else◌, length, is_empty, trim, Runtime, File,
  missing, unreadable, content, Option, none, some, Json, obj, Fields, split_on,
}
use frankai_online.Memory.Endpoints.{Site, World}
use frankai_online.Scripts.RebuildIndex.{entry_of, is_stored_memory_event}

-- The two variables of the loop over the lines: the events, and the number of lines skipped.
abbrev pub Events : Type 0
Events = List Fields × ℕ

unfoldable pub push_event : Option Json → Events → Events
push_event (some (obj fs)) (events, skipped_count) =
    if is_stored_memory_event (obj fs)
    then (events ++ fs ∷ [], skipped_count)
    else (events, skipped_count + 1)
push_event _ (events, skipped_count) = (events, skipped_count + 1)

unfoldable pub add_line_event : Runtime → Str → Events → Events
unfolding push_event
add_line_event rt line state =
    if is_empty (trim line) then state else push_event (rt.parse line) state

unfoldable pub read_each : Runtime → List Str → Events → Events
read_each rt [] state = state
read_each rt (line ∷ lines) state = read_each rt lines (add_line_event rt line state)

-- `none` is the exception that is thrown on.
unfoldable pub read_memory_events : Runtime → File → Option Events
read_memory_events rt missing = some ([], 0)
read_memory_events rt unreadable = none
read_memory_events rt (content raw) = some (read_each rt (split_on 10 raw) ([], 0))

-- What the script prints.
pub record Report : Type 0 where
  pub index_file : Str
  pub source_file : Str
  pub event_count : ℕ
  pub skipped_count : ℕ
  pub built_at : Str

unfoldable pub write_index : Runtime → World → Str → Site → Option Events → Option (Site × Report)
write_index rt w index_file site none = none
write_index rt w index_file site (some (events, skipped_count)) =
    if w.index_writable
    then some (
      record site {
        index = some (record {
          built_at = w.built_at;
          source_file = w.events_file;
          event_count = length events;
          skipped_count = skipped_count;
          entries = map (entry_of rt) events;
        });
      },
      record {
        index_file = index_file;
        source_file = w.events_file;
        event_count = length events;
        skipped_count = skipped_count;
        built_at = w.built_at;
      },
    )
    else none

-- `main()`, with the name of the index file; `none` is the exit with an error.
unfoldable pub rebuild_main : Runtime → World → Str → Site → Option (Site × Report)
unfolding write_index
rebuild_main rt w index_file site =
    write_index rt w index_file site (read_memory_events rt site.queue)
