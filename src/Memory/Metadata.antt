-- ===== src/Memory/Metadata.antt =====
-- lib/memory/index.ts: what of an event becomes searchable, and the metadata that a citation shows.
pub mod Privacy
use frankai_online.Common.{
  ℕ, ◌+◌, Str, js, List, [], ◌∷◌, map, Bool, true, false, not, ◌&&◌, ◌||◌, if◌then◌else◌, filter,
  is_empty, str_mem, join, decimal, Runtime, Option, none, some, Json, null, bool, num, str, arr,
  obj, Items, nil, cons, Fields, end, field, items, fields, truthy,
}
use frankai_online.Memory.{StoredMemoryEvent}
use frankai_online.Memory.Words.{truncate}

abbrev pub sensitive_metadata_keys : List Str
sensitive_metadata_keys =
    js "body"
    ∷ js "content"
    ∷ js "email_body"
    ∷ js "html"
    ∷ js "message"
    ∷ js "raw"
    ∷ js "raw_body"
    ∷ js "text"
    ∷ []

abbrev pub max_index_text_chars : ℕ
max_index_text_chars = 4000

-- `SENSITIVE_METADATA_KEYS.has(key.toLowerCase())`
unfoldable pub is_sensitive : Runtime → Str → Bool
is_sensitive rt key = str_mem (rt.lower key) sensitive_metadata_keys

unfoldable mutual
  pub search_text : Runtime → Json → Str
  search_text rt (str s) = s
  search_text rt (num n) = rt.to_text (num n)
  search_text rt (bool b) = if b then js "true" else js "false"
  search_text rt (arr vs) = join (js " ") (item_texts rt vs)
  search_text rt (obj fs) = join (js " ") (field_texts rt fs)
  search_text rt null = []

  pub item_texts : Runtime → Items → List Str
  item_texts rt nil = []
  item_texts rt (cons v vs) = search_text rt v ∷ item_texts rt vs

  pub field_texts : Runtime → Fields → List Str
  field_texts rt end = []
  field_texts rt (field k v fs) =
      let rest = field_texts rt fs in if is_sensitive rt k then rest else search_text rt v ∷ rest

-- `Object.entries(value)`: arrays and strings have their indices for keys, other primitives none.
indexed_items : ℕ → List Json → List (Str × Json)
indexed_items i [] = []
indexed_items i (v ∷ vs) = (decimal i, v) ∷ indexed_items (i + 1) vs

indexed_units : ℕ → Str → List (Str × Json)
indexed_units i [] = []
indexed_units i (c ∷ s) = (decimal i, str (c ∷ [])) ∷ indexed_units (i + 1) s

unfoldable pub entries_of : Json → List (Str × Json)
unfolding indexed_items indexed_units
entries_of (obj fs) = fields fs
entries_of (arr vs) = indexed_items 0 (items vs)
entries_of (str s) = indexed_units 0 s
entries_of _ = []

abbrev pub is_scalar : Json → Bool
is_scalar (arr vs) = false
is_scalar (obj fs) = false
is_scalar _ = true

unfoldable pub is_shown : Runtime → Str × Json → Bool
is_shown rt (k, v) = not (is_sensitive rt k) && is_scalar v

unfoldable pub shorten : Str × Json → Str × Json
shorten (k, str s) = (k, str (truncate s 200))
shorten (k, v) = (k, v)

unfoldable pub sanitize_metadata : Runtime → Option Json → Option (List (Str × Json))
sanitize_metadata rt none = none
sanitize_metadata rt (some m) =
    let safe = filter (is_shown rt) (entries_of m) in
    if not (truthy m) || is_empty safe then none else some (map shorten safe)

-- A part that is a text: the empty one is falsy.
unfoldable pub text_part : Str → Option Str
text_part s = if is_empty s then none else some s

-- A part `value || ''`: nothing where it is falsy, and else what `join` writes of it, which is empty
-- for an empty array.
unfoldable pub joined : Runtime → Option Json → Option Str
unfolding text_part
joined rt none = none
joined rt (some (str s)) = text_part s
joined rt (some v) = if truthy v then some (rt.to_text v) else none

-- `parts.filter(Boolean)`
unfoldable pub kept_parts : List (Option Str) → List Str
kept_parts [] = []
kept_parts (none ∷ parts) = kept_parts parts
kept_parts (some part ∷ parts) = part ∷ kept_parts parts

unfoldable pub text_or_empty : Option Json → Str
text_or_empty (some (str s)) = s
text_or_empty _ = []

unfoldable pub metadata_text : Runtime → Option Json → Str
metadata_text rt none = []
metadata_text rt (some m) = if truthy m then search_text rt m else []

unfoldable pub searchable_text : Runtime → StoredMemoryEvent → Str
searchable_text rt event =
    let parts =
      text_part event.source
      ∷ text_part event.kind
      ∷ joined rt event.external_id
      ∷ joined rt event.occurred_at
      ∷ text_part event.received_at
      ∷ text_part (text_or_empty event.text)
      ∷ text_part (metadata_text rt event.metadata)
      ∷ [] in
    truncate (join (js " ") (kept_parts parts)) max_index_text_chars
