-- ===== src/Memory/Metadata/Privacy.antt =====
-- lib/memory/index.ts: sensitive metadata, the searchable text and the citations.
use frankai_online.Common.{
  ◌≤◌, Str, js, List, [], ◌∷◌, map, true, false, ◌≡◌, refl, ap, inl, inr, if◌then◌else◌, length,
  filter, join, Runtime, All, Bool-cases, arith, Option, none, some, Json, null, bool, num, str,
  arr, obj, Items, nil, cons, Fields, end, field, fields, truthy,
}
use frankai_online.Memory.{StoredMemoryEvent}
use frankai_online.Memory.Words.Laws.{truncate_bounds}
use frankai_online.Memory.Metadata.{
  is_sensitive, search_text, item_texts, field_texts, entries_of, is_scalar, is_shown, shorten,
  sanitize_metadata, metadata_text, searchable_text,
}

-- A value without its sensitive fields, at every depth.
unfoldable mutual
  pub strip : Runtime → Json → Json
  strip rt (arr vs) = arr (strip_items rt vs)
  strip rt (obj fs) = obj (strip_fields rt fs)
  strip rt v = v

  pub strip_items : Runtime → Items → Items
  strip_items rt nil = nil
  strip_items rt (cons v vs) = cons (strip rt v) (strip_items rt vs)

  pub strip_fields : Runtime → Fields → Fields
  strip_fields rt end = end
  strip_fields rt (field k v fs) =
      let rest = strip_fields rt fs in if is_sensitive rt k then rest else field k (strip rt v) rest

mutual
  unfolding search_text strip

  search_text-strip : (rt : Runtime) (v : Json) → search_text rt (strip rt v) ≡ search_text rt v
  search_text-strip rt null = refl
  search_text-strip rt (bool b) = refl
  search_text-strip rt (num n) = refl
  search_text-strip rt (str s) = refl
  search_text-strip rt (arr vs) = ap (join (js " ")) (item_texts-strip rt vs)
  search_text-strip rt (obj fs) = ap (join (js " ")) (field_texts-strip rt fs)

  item_texts-strip :
      (rt : Runtime) (vs : Items) → item_texts rt (strip_items rt vs) ≡ item_texts rt vs
  item_texts-strip rt nil = refl
  item_texts-strip rt (cons v vs) = rw (search_text-strip rt v) (rw (item_texts-strip rt vs))

  field_texts-strip :
      (rt : Runtime) (fs : Fields) → field_texts rt (strip_fields rt fs) ≡ field_texts rt fs
  field_texts-strip rt end = refl
  field_texts-strip rt (field k v fs) = elim (Bool-cases (is_sensitive rt k)) [
    | inl e ↦ rw e (field_texts-strip rt fs)
    | inr e ↦ rw e (rw e (rw (search_text-strip rt v) (rw (field_texts-strip rt fs))))
  ]

-- The scalar fields of an object are the same with and without its sensitive fields.
filter-strip :
    (rt : Runtime) (fs : Fields)
    → filter (is_shown rt) (fields (strip_fields rt fs)) ≡ filter (is_shown rt) (fields fs)
unfolding strip is_shown
filter-strip rt end = refl
filter-strip rt (field k (arr vs) fs) = ground (arith, filter-strip rt fs)
filter-strip rt (field k v fs) = ground (arith, filter-strip rt fs)

abbrev pub without_sensitive : Runtime → Fields → StoredMemoryEvent → StoredMemoryEvent
without_sensitive rt fs event = record event { metadata = some (obj (strip_fields rt fs)) }

-- For an event with metadata, the searchable text and the metadata of its citations are what they
-- would be had every sensitive field, at any depth, been left out before.
pub metadata_noninterference :
    (rt : Runtime) (fs : Fields) (event : StoredMemoryEvent)
    → event.metadata ≡ some (obj fs)
    → (searchable_text rt (without_sensitive rt fs event) ≡ searchable_text rt event)
      × (sanitize_metadata rt (some (obj (strip_fields rt fs)))
          ≡ sanitize_metadata rt event.metadata)
unfolding searchable_text metadata_text sanitize_metadata entries_of truthy search_text
metadata_noninterference rt fs event h =
    rw h (rw (field_texts-strip rt fs, filter-strip rt fs) (refl, refl))

-- What a citation may show of the metadata: a scalar under a key that is not sensitive, a text
-- being cut to 202 characters.
abbrev pub IsShown : Runtime → Str × Json → Type 0
IsShown rt (k, str s) = (is_sensitive rt k ≡ false) × (length s ≤ 202)
IsShown rt (k, v) = (is_sensitive rt k ≡ false) × (is_scalar v ≡ true)

shorten-IsShown : (rt : Runtime) (e : Str × Json) → is_shown rt e ≡ true → IsShown rt (shorten e)
unfolding is_shown shorten
shorten-IsShown rt (k, str s) h = ground (arith, truncate_bounds s 200)
shorten-IsShown rt (k, v) h = ground arith

map-shorten :
    (rt : Runtime) (es : List (Str × Json))
    → All (IsShown rt) (map shorten (filter (is_shown rt) es))
map-shorten rt [] = tt
map-shorten rt (e ∷ es) = elim (Bool-cases (is_shown rt e)) [
  | inl h ↦ rw h (shorten-IsShown rt e h, map-shorten rt es)
  | inr h ↦ rw h (map-shorten rt es)
]

-- Whatever JSON value stands for the metadata, what is kept of it for citations has no sensitive
-- key, no nested value and no text of more than 202 characters.
pub sanitize_metadata-IsShown :
    (rt : Runtime) (m : Option Json) (es : List (Str × Json))
    → sanitize_metadata rt m ≡ some es
    → All (IsShown rt) es
unfolding sanitize_metadata
sanitize_metadata-IsShown rt none es h = cc
sanitize_metadata-IsShown rt (some m) es h =
    let same : map shorten (filter (is_shown rt) (entries_of m)) ≡ es = ground arith in
    rw same at (map-shorten rt (entries_of m))
