-- ===== src/Scripts/RebuildIndex/Texts.antt =====
-- scripts/rebuild-memory-index.mjs and lib/memory/index.ts: the two functions for each text of an
-- entry agree, on metadata that is absent, null or an object.
use frankai_online.Common.{
  ℕ, Str, js, List, [], ◌∷◌, map, Bool, true, false, not, ◌≡◌, refl, ap, Bool-cases, inl, inr,
  arith, if◌then◌else◌, filter, join, Runtime, Option, none, some, Json, null, bool, num, str, arr,
  obj, Items, nil, cons, Fields, end, field, fields, truthy,
}
use frankai_online.Memory.Words.{truncate, normalize_for_search, tokenize, is_term}
use frankai_online.Memory.Terms.{Terms, count_each, count_terms}
use frankai_online.Memory.Metadata.{
  search_text, item_texts, field_texts, is_sensitive, entries_of, is_shown, shorten,
  sanitize_metadata, metadata_text, text_or_empty,
}
use frankai_online.Memory.Index.{index_text}
use frankai_online.Scripts.RebuildIndex.{
  shortened, normalized_text, is_counted, counted_terms, add_terms, terms_of, is_hidden,
  json_value_to_search_text, texts_of_items, texts_of_fields, is_plain_value, is_safe_entry,
  shortened_entry, safe_metadata, text_at, object_text, short_text,
}

-- Metadata of the type that the site's own requests store.
abbrev pub is_plain_metadata : Option Json → Bool
is_plain_metadata none = true
is_plain_metadata (some null) = true
is_plain_metadata (some (obj fs)) = true
is_plain_metadata _ = false

pub shortened_lem : (s : Str) (n : ℕ) → shortened s n ≡ truncate s n
unfolding shortened truncate
shortened_lem s n = refl

is_hidden_lem : (rt : Runtime) (k : Str) → is_hidden rt k ≡ is_sensitive rt k
unfolding is_hidden is_sensitive
is_hidden_lem rt k = refl

add_terms_lem : (ts : List Str) (terms : Terms) → add_terms ts terms ≡ count_each ts terms
unfolding add_terms count_each
add_terms_lem [] terms = refl
add_terms_lem (t ∷ ts) terms = add_terms_lem ts _

pub terms_of_lem : (rt : Runtime) (s : Str) → terms_of rt s ≡ count_terms rt s
unfolding terms_of count_terms counted_terms tokenize normalized_text normalize_for_search
    is_counted is_term
terms_of_lem rt s = add_terms_lem _ []

-- The two ways to leave an element out.
kept_unless :
    (b : Bool) {s t : Str} {ss ts : List Str}
    → s ≡ t
    → ss ≡ ts
    → (if not b then s ∷ ss else ss) ≡ (if b then ts else t ∷ ts)
kept_unless true e es = es
kept_unless false e es = cc

mutual
  unfolding json_value_to_search_text search_text texts_of_items item_texts texts_of_fields
      field_texts is_hidden is_sensitive

  pub json_value_to_search_text_lem :
      (rt : Runtime) (v : Json) → json_value_to_search_text rt v ≡ search_text rt v
  json_value_to_search_text_lem rt (str s) = refl
  json_value_to_search_text_lem rt (num n) = refl
  json_value_to_search_text_lem rt (bool b) = refl
  json_value_to_search_text_lem rt (arr vs) = ap (join (js " ")) (texts_of_items_lem rt vs)
  json_value_to_search_text_lem rt (obj fs) = ap (join (js " ")) (texts_of_fields_lem rt fs)
  json_value_to_search_text_lem rt null = refl

  texts_of_items_lem : (rt : Runtime) (vs : Items) → texts_of_items rt vs ≡ item_texts rt vs
  texts_of_items_lem rt nil = refl
  texts_of_items_lem rt (cons v vs) =
      let here = json_value_to_search_text_lem rt v in let rest = texts_of_items_lem rt vs in cc

  texts_of_fields_lem : (rt : Runtime) (fs : Fields) → texts_of_fields rt fs ≡ field_texts rt fs
  texts_of_fields_lem rt end = refl
  texts_of_fields_lem rt (field k v fs) =
      kept_unless (is_hidden rt k) (json_value_to_search_text_lem rt v) (texts_of_fields_lem rt fs)

is_safe_entry_lem : (rt : Runtime) (e : Str × Json) → is_safe_entry rt e ≡ is_shown rt e
unfolding is_safe_entry is_shown is_hidden is_sensitive is_plain_value
is_safe_entry_lem rt (k, null) = ground arith
is_safe_entry_lem rt (k, bool b) = ground arith
is_safe_entry_lem rt (k, num n) = ground arith
is_safe_entry_lem rt (k, str s) = ground arith
is_safe_entry_lem rt (k, arr vs) = ground arith
is_safe_entry_lem rt (k, obj fs) = ground arith

filter-ext {ℓ} :
    {A : Type ℓ} (p q : A → Bool)
    → ((x : A) → p x ≡ q x)
    → (xs : List A) → filter p xs ≡ filter q xs
filter-ext p q h [] = refl
filter-ext p q h (x ∷ xs) =
    let same = h x in
    let rest = filter-ext p q h xs in
    elim (Bool-cases (q x)) [
      | inl e ↦ (rw same (rw e (ap (◌∷◌ x) rest)))
      | inr e ↦ (rw same (rw e rest))
    ]

map-ext {ℓ} :
    {A : Type ℓ} (f g : A → A) → ((x : A) → f x ≡ g x) → (xs : List A) → map f xs ≡ map g xs
map-ext f g h [] = refl
map-ext f g h (x ∷ xs) = let here = h x in let rest = map-ext f g h xs in cc

shortened_entry_lem : (e : Str × Json) → shortened_entry e ≡ shorten e
unfolding shortened_entry shorten shortened truncate
shortened_entry_lem (k, null) = refl
shortened_entry_lem (k, bool b) = refl
shortened_entry_lem (k, num n) = refl
shortened_entry_lem (k, str s) = refl
shortened_entry_lem (k, arr vs) = refl
shortened_entry_lem (k, obj fs) = refl

pub safe_metadata_lem :
    (rt : Runtime) (m : Option Json)
    → is_plain_metadata m ≡ true
    → safe_metadata rt m ≡ sanitize_metadata rt m
unfolding safe_metadata sanitize_metadata truthy entries_of
safe_metadata_lem rt none e = refl
safe_metadata_lem rt (some null) e = refl
safe_metadata_lem rt (some (obj fs)) e =
    let same = filter-ext (is_safe_entry rt) (is_shown rt) (is_safe_entry_lem rt) (fields fs) in
    let short =
      map-ext shortened_entry shorten shortened_entry_lem (filter (is_shown rt) (fields fs)) in
    (rw same (rw short refl))
safe_metadata_lem rt (some (bool b)) e = absurd (ground arith)
safe_metadata_lem rt (some (num n)) e = absurd (ground arith)
safe_metadata_lem rt (some (str s)) e = absurd (ground arith)
safe_metadata_lem rt (some (arr vs)) e = absurd (ground arith)

pub object_text_lem :
    (rt : Runtime) (m : Option Json)
    → is_plain_metadata m ≡ true
    → object_text rt m ≡ metadata_text rt m
unfolding object_text metadata_text truthy
object_text_lem rt none e = refl
object_text_lem rt (some null) e = refl
object_text_lem rt (some (obj fs)) e = json_value_to_search_text_lem rt (obj fs)
object_text_lem rt (some (bool b)) e = absurd (ground arith)
object_text_lem rt (some (num n)) e = absurd (ground arith)
object_text_lem rt (some (str s)) e = absurd (ground arith)
object_text_lem rt (some (arr vs)) e = absurd (ground arith)

pub text_at_lem : (o : Option Json) → text_at o ≡ text_or_empty o
unfolding text_at text_or_empty
text_at_lem none = refl
text_at_lem (some null) = refl
text_at_lem (some (bool b)) = refl
text_at_lem (some (num n)) = refl
text_at_lem (some (str s)) = refl
text_at_lem (some (arr vs)) = refl
text_at_lem (some (obj fs)) = refl

pub short_text_lem : (o : Option Json) → short_text o ≡ index_text o
unfolding short_text index_text shortened truncate
short_text_lem none = refl
short_text_lem (some null) = refl
short_text_lem (some (bool b)) = refl
short_text_lem (some (num n)) = refl
short_text_lem (some (str s)) = refl
short_text_lem (some (arr vs)) = refl
short_text_lem (some (obj fs)) = refl
