-- ===== src/Memory/Search/Constructor.antt =====
-- lib/memory/index.ts: a query that has the term `constructor`, which every plain object inherits.
use frankai_online.Common.{
  ℕ, zero, suc, Str, js, List, [], ◌∷◌, map, true, false, not, ◌≡◌, refl, inl, inr, take, filter,
  str_mem, ◌===◌, ===_iff, Runtime, Bool-cases, arith,
}
use frankai_online.Memory.{StoredMemoryEvent}
use frankai_online.Memory.Words.{tokenize, normalize_for_search}
use frankai_online.Memory.Terms.{
  Count, number, text, Terms, own_term, read_term, or_zero, ◌⊕◌, set_term, count_each, count_terms,
}
use frankai_online.Memory.Terms.Counting.{own_term-set_term}
use frankai_online.Memory.Index.{MemoryIndexEntry, index_entry, build_memory_index}
use frankai_online.Memory.Query.{MemorySearchPayload}
use frankai_online.Memory.Search.{
  Scored, as_result, unique, score_term, score_terms, score_entry, keep_positive, hits, sort_hits,
  search_hits, search_memory_index,
}

abbrev ctor : Str
ctor = js "constructor"

-- Neither a build nor a read gives `constructor` a number.
abbrev Inherits : Terms → Type 0
Inherits terms = or_zero (read_term terms ctor) ≡ text

nothing-Inherits : Inherits []
unfolding read_term own_term ◌===◌
nothing-Inherits = refl

score_term_text :
    (rt : Runtime) (entry : MemoryIndexEntry) (t : Str) (c : Count)
    → or_zero (read_term entry.terms t) ≡ text
    → score_term rt entry t c ≡ text
unfolding score_term ◌⊕◌
score_term_text rt entry t c h = ground arith

take-nil : (n : ℕ) → take {A = Scored} n [] ≡ []
take-nil zero = refl
take-nil (suc n) = refl

nothing_sorted : (rt : Runtime) (n : ℕ) → map as_result (take n (sort_hits rt [])) ≡ []
unfolding sort_hits
nothing_sorted rt n = rw (take-nil n)

set_term-Inherits :
    (w : Str) (terms : Terms)
    → Inherits terms
    → Inherits (set_term w (or_zero (read_term terms w) ⊕ number 1) terms)
unfolding read_term ◌⊕◌
set_term-Inherits w terms h =
    ground (
      arith,
      own_term-set_term w ctor (or_zero (read_term terms w) ⊕ number 1) terms,
      ===_iff w ctor,
    )

count_each-Inherits :
    (ws : List Str) (terms : Terms) → Inherits terms → Inherits (count_each ws terms)
unfolding count_each
count_each-Inherits [] terms h = h
count_each-Inherits (w ∷ ws) terms h =
    count_each-Inherits ws (set_term w (or_zero (read_term terms w) ⊕ number 1) terms)
      (set_term-Inherits w terms h)

index_entry-Inherits :
    (rt : Runtime) (event : StoredMemoryEvent) → Inherits (index_entry rt event).terms
unfolding index_entry count_terms
index_entry-Inherits rt event = count_each-Inherits _ [] nothing-Inherits

score_terms-text :
    (rt : Runtime) (entry : MemoryIndexEntry) (ts : List Str) → score_terms rt entry ts text ≡ text
unfolding score_terms score_term ◌⊕◌
score_terms-text rt entry [] = refl
score_terms-text rt entry (t ∷ ts) = ground (arith, score_terms-text rt entry ts)

score_terms_of_mem :
    (rt : Runtime) (entry : MemoryIndexEntry) (ts : List Str) (c : Count)
    → Inherits entry.terms
    → str_mem ctor ts ≡ true
    → score_terms rt entry ts c ≡ text
unfolding score_terms str_mem
score_terms_of_mem rt entry [] c p h = cc
score_terms_of_mem rt entry (t ∷ ts) c p h = elim (Bool-cases (ctor === t)) [
  | inl e ↦
      let same : ctor ≡ t = (===_iff ctor t).0 e in
      rw (score_term_text rt entry t c (rw same at p)) (score_terms-text rt entry ts)
  | inr e ↦ score_terms_of_mem rt entry ts (score_term rt entry t c) p (rw e at h)
]

str_mem-filter :
    (u t : Str) (ts : List Str)
    → (t === u) ≡ false
    → str_mem u (filter (λ v. not (v === t)) ts) ≡ str_mem u ts
unfolding str_mem
str_mem-filter u t [] h = refl
str_mem-filter u t (v ∷ vs) h =
    ground (arith, str_mem-filter u t vs h, ===_iff v t, ===_iff u v, ===_iff t u)

unique_mem : (u : Str) (ts : List Str) → str_mem u ts ≡ true → str_mem u (unique ts) ≡ true
unfolding str_mem unique
unique_mem u [] h = h
unique_mem u (t ∷ ts) h =
    ground (arith, unique_mem u ts, str_mem-filter u t (unique ts), ===_iff u t, ===_iff t u)

hits_of_mem :
    (rt : Runtime) (ts : List Str) (query : Str) (events : List StoredMemoryEvent)
    → str_mem ctor ts ≡ true
    → hits rt ts query (map (index_entry rt) events) ≡ []
unfolding hits keep_positive score_entry ◌⊕◌
hits_of_mem rt ts query [] h = refl
hits_of_mem rt ts query (e ∷ es) h =
    rw (score_terms_of_mem rt (index_entry rt e) ts (number 0) (index_entry-Inherits rt e) h)
      (ground (arith, hits_of_mem rt ts query es h))

-- A search for a query that has `constructor` among its terms finds nothing, whatever events the
-- index was built from, also where their texts hold the word.
pub search_constructor :
    (rt : Runtime) (now file : Str) (events : List StoredMemoryEvent)
    (payload : MemorySearchPayload)
    → str_mem (js "constructor") (tokenize rt payload.query) ≡ true
    → (search_memory_index rt (build_memory_index rt now events file) payload).results ≡ []
unfolding search_memory_index search_hits build_memory_index
search_constructor rt now file events payload h =
    rw
      (hits_of_mem rt (unique (tokenize rt payload.query)) (normalize_for_search rt payload.query)
        events (unique_mem ctor (tokenize rt payload.query) h))
      (nothing_sorted rt payload.limit)
