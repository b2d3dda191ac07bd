-- ===== src/Memory/Search.antt =====
-- lib/memory/index.ts: scoring the entries, ranking the hits and cutting them to the limit.
pub mod Ranking
pub mod Constructor
use frankai_online.Common.{
  ℕ, zero, suc, Str, List, [], ◌∷◌, map, Bool, true, false, not, ◌&&◌, ◌||◌, ltb, ◌==◌,
  if◌then◌else◌, length, take, filter, is_empty, is_space, trim, ◌===◌, includes, Runtime, Option,
  none, some, Json,
}
use Prim.Native.Nat.{max}
use frankai_online.Memory.Words.{normalize_for_search, tokenize, truncate}
use frankai_online.Memory.Terms.{Count, number, text, read_term, or_zero, ◌⊕◌}
use frankai_online.Memory.Index.{MemoryIndexEntry, MemoryIndex}
use frankai_online.Memory.Query.{MemorySearchPayload}

abbrev pub max_excerpt_chars : ℕ
max_excerpt_chars = 320

-- `Array.from(new Set(terms))`: the first occurrence of each term.
unfoldable pub unique : List Str → List Str
unique [] = []
unique (t ∷ ts) = t ∷ filter (λ u. not (u === t)) (unique ts)

-- One round of the loop over the query's terms.
unfoldable pub score_term : Runtime → MemoryIndexEntry → Str → Count → Count
score_term rt entry term score =
    let counted = score ⊕ or_zero (read_term entry.terms term) in
    if (rt.lower entry.source === term) || (rt.lower entry.kind === term)
    then counted ⊕ number 2
    else counted

unfoldable pub score_terms : Runtime → MemoryIndexEntry → List Str → Count → Count
score_terms rt entry [] score = score
score_terms rt entry (term ∷ terms) score =
    score_terms rt entry terms (score_term rt entry term score)

unfoldable pub score_entry : Runtime → MemoryIndexEntry → List Str → Str → Count
score_entry rt entry query_terms normalized_query =
    let score = score_terms rt entry query_terms (number 0) in
    if not (is_empty normalized_query)
      && includes (normalize_for_search rt entry.searchable_text) normalized_query
    then score ⊕ number (max 2 (length query_terms))
    else score

-- An entry with its score, which is a number above 0 for every entry that passes the filter.
pub record Scored : Type 0 where
  pub entry : MemoryIndexEntry
  pub score : ℕ

-- `result.score > 0`: a string that converts to no number fails the test.
unfoldable pub keep_positive : MemoryIndexEntry → Count → List Scored → List Scored
keep_positive entry (number zero) rest = rest
keep_positive entry (number (suc n)) rest = record { entry = entry; score = suc n } ∷ rest
keep_positive entry text rest = rest

unfoldable pub hits : Runtime → List Str → Str → List MemoryIndexEntry → List Scored
hits rt terms query [] = []
hits rt terms query (entry ∷ entries) =
    keep_positive entry (score_entry rt entry terms query) (hits rt terms query entries)

-- The comparator is negative at `a`, `b`.
unfoldable pub precedes : Runtime → Scored → Scored → Bool
precedes rt a b =
    if a.score == b.score
    then rt.collates_before b.entry.received_at a.entry.received_at
    else ltb b.score a.score

-- The stable sort of `Array.prototype.sort`.
unfoldable pub insert_hit : Runtime → Scored → List Scored → List Scored
insert_hit rt x [] = x ∷ []
insert_hit rt x (y ∷ ys) =
    let later = insert_hit rt x ys in if precedes rt y x then y ∷ later else x ∷ y ∷ ys

unfoldable pub sort_hits : Runtime → List Scored → List Scored
sort_hits rt [] = []
sort_hits rt (x ∷ xs) = insert_hit rt x (sort_hits rt xs)

-- `replace(/\s+/g, ' ')`
squeeze : Bool → Str → Str
squeeze in_run [] = []
squeeze in_run (c ∷ s) =
    let rest = squeeze false s in
    let gap = squeeze true s in if is_space c then if in_run then gap else 32 ∷ gap else c ∷ rest

source_text : MemoryIndexEntry → Str
source_text entry = elim entry.text [
  | none ↦ entry.searchable_text
  | some s ↦ if is_empty s then entry.searchable_text else s
]

unfoldable pub make_excerpt : MemoryIndexEntry → Option Str
unfolding squeeze source_text
make_excerpt entry =
    let normalized = trim (squeeze false (source_text entry)) in
    if is_empty normalized then none else some (truncate normalized max_excerpt_chars)

pub record Citation : Type 0 where
  pub id : Str
  pub source : Str
  pub kind : Str
  pub received_at : Str
  pub occurred_at : Option Json
  pub external_id : Option Json
  pub privacy : Option Json
  pub metadata : Option (List (Str × Json))

pub record MemorySearchResult : Type 0 where
  pub id : Str
  pub score : ℕ
  pub excerpt : Option Str
  pub citation : Citation

pub record MemorySearchResponse : Type 0 where
  pub query : Str
  pub count : ℕ
  pub built_at : Str
  pub source_file : Str
  pub results : List MemorySearchResult

unfoldable pub as_result : Scored → MemorySearchResult
as_result hit =
    let e = hit.entry in
    record {
      id = e.id;
      score = hit.score;
      excerpt = make_excerpt e;
      citation = record {
        id = e.id;
        source = e.source;
        kind = e.kind;
        received_at = e.received_at;
        occurred_at = e.occurred_at;
        external_id = e.external_id;
        privacy = e.privacy;
        metadata = e.metadata;
      };
    }

unfoldable pub search_hits : Runtime → MemoryIndex → MemorySearchPayload → List Scored
search_hits rt index payload =
    hits rt (unique (tokenize rt payload.query)) (normalize_for_search rt payload.query)
      index.entries

unfoldable pub search_memory_index :
    Runtime → MemoryIndex → MemorySearchPayload → MemorySearchResponse
search_memory_index rt index payload =
    let results =
      map as_result (take payload.limit (sort_hits rt (search_hits rt index payload))) in
    record {
      query = payload.query;
      count = length results;
      built_at = index.built_at;
      source_file = index.source_file;
      results = results;
    }
