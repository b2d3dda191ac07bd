-- ===== src/Scripts/RebuildIndex.antt =====
-- scripts/rebuild-memory-index.mjs: the index built outside the site, by functions of the script's
-- own.
pub mod Texts
pub mod Queue
pub mod Reading
pub mod Equivalence
use frankai_online.Common.{
  ℕ, ◌-◌, Str, js, List, [], ◌∷◌, ◌++◌, map, Bool, true, false, not, ◌&&◌, leb, ltb, if◌then◌else◌,
  length, take, filter, is_empty, trim, str_mem, join, Runtime, Option, none, some, Json, null,
  bool, num, str, arr, obj, Items, nil, cons, Fields, end, field, fields, get,
}
use frankai_online.Memory.Words.{collapse, is_mark, split_spaces}
use frankai_online.Memory.Terms.{number, text, Terms, read_term, or_zero, ◌⊕◌, set_term}
use frankai_online.Memory.Metadata.{joined, text_part, kept_parts}
use frankai_online.Memory.Index.{MemoryIndexEntry}

abbrev pub sensitive_keys : List Str
sensitive_keys =
    js "body"
    ∷ js "content"
    ∷ js "email_body"
    ∷ js "html"
    ∷ js "message"
    ∷ js "raw"
    ∷ js "raw_body"
    ∷ js "text"
    ∷ []

abbrev pub index_stop_words : List Str
index_stop_words =
    js "a"
    ∷ js "an"
    ∷ js "and"
    ∷ js "are"
    ∷ js "as"
    ∷ js "at"
    ∷ js "be"
    ∷ js "by"
    ∷ js "for"
    ∷ js "from"
    ∷ js "in"
    ∷ js "is"
    ∷ js "it"
    ∷ js "of"
    ∷ js "on"
    ∷ js "or"
    ∷ js "the"
    ∷ js "to"
    ∷ js "was"
    ∷ js "with"
    ∷ []

-- `isObject(value)`
unfoldable pub is_object : Json → Bool
is_object (obj fs) = true
is_object _ = false

-- `typeof value.k === 'string' && value.k.trim()`
unfoldable pub has_text : Option Json → Bool
has_text (some (str s)) = not (is_empty (trim s))
has_text _ = false

unfoldable pub is_stored_memory_event : Json → Bool
is_stored_memory_event (obj fs) =
    has_text (get fs (js "id"))
    && has_text (get fs (js "receivedAt"))
    && has_text (get fs (js "source"))
    && has_text (get fs (js "kind"))
is_stored_memory_event _ = false

unfoldable pub shortened : Str → ℕ → Str
shortened value max_chars =
    if leb (length value) max_chars then value else trim (take (max_chars - 1) value) ++ js "..."

unfoldable pub normalized_text : Runtime → Str → Str
normalized_text rt value =
    trim (collapse false (filter (λ c. not (is_mark c)) (rt.nfkd (rt.lower value))))

unfoldable pub is_counted : Str → Bool
is_counted term = ltb 1 (length term) && not (str_mem term index_stop_words)

unfoldable pub counted_terms : Runtime → Str → List Str
counted_terms rt value =
    let normalized = normalized_text rt value in
    if is_empty normalized then [] else filter is_counted (split_spaces normalized)

-- The loop `terms[term] = (terms[term] || 0) + 1`
unfoldable pub add_terms : List Str → Terms → Terms
add_terms [] terms = terms
add_terms (term ∷ rest) terms =
    add_terms rest (set_term term (or_zero (read_term terms term) ⊕ number 1) terms)

unfoldable pub terms_of : Runtime → Str → Terms
terms_of rt value = add_terms (counted_terms rt value) []

unfoldable pub is_hidden : Runtime → Str → Bool
is_hidden rt key = str_mem (rt.lower key) sensitive_keys

unfoldable mutual
  pub json_value_to_search_text : Runtime → Json → Str
  json_value_to_search_text rt (str s) = s
  json_value_to_search_text rt (num n) = rt.to_text (num n)
  json_value_to_search_text rt (bool b) = if b then js "true" else js "false"
  json_value_to_search_text rt (arr vs) = join (js " ") (texts_of_items rt vs)
  json_value_to_search_text rt (obj fs) = join (js " ") (texts_of_fields rt fs)
  json_value_to_search_text rt null = []

  pub texts_of_items : Runtime → Items → List Str
  texts_of_items rt nil = []
  texts_of_items rt (cons v vs) = json_value_to_search_text rt v ∷ texts_of_items rt vs

  pub texts_of_fields : Runtime → Fields → List Str
  texts_of_fields rt end = []
  texts_of_fields rt (field k v fs) =
      let rest = texts_of_fields rt fs in
      if not (is_hidden rt k) then json_value_to_search_text rt v ∷ rest else rest

unfoldable pub is_plain_value : Json → Bool
is_plain_value (arr vs) = false
is_plain_value (obj fs) = false
is_plain_value _ = true

unfoldable pub is_safe_entry : Runtime → Str × Json → Bool
unfolding is_plain_value
is_safe_entry rt (k, v) = if is_hidden rt k then false else is_plain_value v

unfoldable pub shortened_entry : Str × Json → Str × Json
shortened_entry (k, str s) = (k, str (shortened s 200))
shortened_entry (k, v) = (k, v)

unfoldable pub safe_metadata : Runtime → Option Json → Option (List (Str × Json))
safe_metadata rt (some (obj fs)) =
    let safe_entries = filter (is_safe_entry rt) (fields fs) in
    if is_empty safe_entries then none else some (map shortened_entry safe_entries)
safe_metadata rt _ = none

-- `event.k`, of a field that the check has found to be a string.
unfoldable pub text_at : Option Json → Str
text_at (some (str s)) = s
text_at _ = []

unfoldable pub object_text : Runtime → Option Json → Str
object_text rt (some (obj fs)) = json_value_to_search_text rt (obj fs)
object_text rt _ = []

-- An event is the object that its line holds.
unfoldable pub build_searchable_text : Runtime → Fields → Str
unfolding text_at object_text
build_searchable_text rt event =
    let parts =
      text_part (text_at (get event (js "source")))
      ∷ text_part (text_at (get event (js "kind")))
      ∷ joined rt (get event (js "externalId"))
      ∷ joined rt (get event (js "occurredAt"))
      ∷ text_part (text_at (get event (js "receivedAt")))
      ∷ text_part (text_at (get event (js "text")))
      ∷ text_part (object_text rt (get event (js "metadata")))
      ∷ [] in
    shortened (join (js " ") (kept_parts parts)) 4000

unfoldable pub short_text : Option Json → Option Str
short_text (some (str s)) = some (shortened s 4000)
short_text _ = none

unfoldable pub entry_of : Runtime → Fields → MemoryIndexEntry
unfolding short_text text_at
entry_of rt event = record {
  id = text_at (get event (js "id"));
  received_at = text_at (get event (js "receivedAt"));
  source = text_at (get event (js "source"));
  kind = text_at (get event (js "kind"));
  occurred_at = get event (js "occurredAt");
  external_id = get event (js "externalId");
  privacy = get event (js "privacy");
  text = short_text (get event (js "text"));
  metadata = safe_metadata rt (get event (js "metadata"));
  searchable_text = build_searchable_text rt event;
  terms = terms_of rt (build_searchable_text rt event);
}
