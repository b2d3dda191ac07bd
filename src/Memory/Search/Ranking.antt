-- ===== src/Memory/Search/Ranking.antt =====
-- lib/memory/index.ts: the order of the results and their number.
use frankai_online.Common.{
  zero, suc, ◌≤◌, Str, List, [], ◌∷◌, map, true, false, ◌≡◌, refl, inl, inr, length, take, Runtime,
  All, All-take, Bool-cases, length-take, length-map, arith,
}
use mathlib.Core.List.{Perm}
use mathlib.Core.List.Perm
use frankai_online.Memory.Index.{MemoryIndexEntry, MemoryIndex}
use frankai_online.Memory.Query.{MemorySearchPayload}
use frankai_online.Memory.Terms.{Count, number, text}
use frankai_online.Memory.Search.{
  Scored, precedes, insert_hit, sort_hits, hits, keep_positive, as_result, search_hits,
  MemorySearchResult, search_memory_index,
}

-- No result precedes the one before it.
module _ (rt : Runtime) where
  abbrev IsOrdered : List Scored → Type 0
  IsOrdered [] = Unit
  IsOrdered (x ∷ []) = Unit
  IsOrdered (x ∷ y ∷ ys) = (precedes rt y x ≡ false) × IsOrdered (y ∷ ys)

  -- Collation is asymmetric.
  abbrev pub Asymmetric : Type 0
  Asymmetric = (a b : Str) → rt.collates_before a b ≡ true → rt.collates_before b a ≡ false

  precedes_asym : Asymmetric → (a b : Scored) → precedes rt a b ≡ true → precedes rt b a ≡ false
  unfolding precedes
  precedes_asym asym a b h = ground (arith, asym b.entry.received_at a.entry.received_at)

  insert_hit-IsOrdered_below :
      Asymmetric
      → (y x : Scored) (ys : List Scored) → precedes rt x y ≡ false
      → IsOrdered (y ∷ ys)
      → IsOrdered (y ∷ insert_hit rt x ys)
  unfolding insert_hit
  insert_hit-IsOrdered_below asym y x [] p h = (p, tt)
  insert_hit-IsOrdered_below asym y x (z ∷ zs) p (q, h) = elim (Bool-cases (precedes rt z x)) [
    | inl e ↦ rw e (q, insert_hit-IsOrdered_below asym z x zs (precedes_asym asym z x e) h)
    | inr e ↦ rw e (p, (e, h))
  ]

  insert_hit-IsOrdered :
      Asymmetric → (x : Scored) (ys : List Scored) → IsOrdered ys → IsOrdered (insert_hit rt x ys)
  unfolding insert_hit
  insert_hit-IsOrdered asym x [] h = tt
  insert_hit-IsOrdered asym x (y ∷ ys) h = elim (Bool-cases (precedes rt y x)) [
    | inl e ↦ rw e (insert_hit-IsOrdered_below asym y x ys (precedes_asym asym y x e) h)
    | inr e ↦ rw e (e, h)
  ]

  sort_hits-IsOrdered : Asymmetric → (xs : List Scored) → IsOrdered (sort_hits rt xs)
  unfolding sort_hits
  sort_hits-IsOrdered asym [] = tt
  sort_hits-IsOrdered asym (x ∷ xs) =
      insert_hit-IsOrdered asym x (sort_hits rt xs) (sort_hits-IsOrdered asym xs)

  insert_hit-perm : (x : Scored) (ys : List Scored) → Perm (insert_hit rt x ys) (x ∷ ys)
  unfolding insert_hit
  insert_hit-perm x [] = Perm.refl _
  insert_hit-perm x (y ∷ ys) = elim (Bool-cases (precedes rt y x)) [
    | inl e ↦ rw e (Perm.trans (Perm.cons y (insert_hit-perm x ys)) (Perm.swap x y ys))
    | inr e ↦ rw e (Perm.refl _)
  ]

  sort_hits-perm : (xs : List Scored) → Perm (sort_hits rt xs) xs
  unfolding sort_hits
  sort_hits-perm [] = Perm.refl _
  sort_hits-perm (x ∷ xs) =
      Perm.trans (insert_hit-perm x (sort_hits rt xs)) (Perm.cons x (sort_hits-perm xs))

-- One result may stand before another: it has the higher score, or the same and was not received
-- earlier.
abbrev pub StandsBefore : Runtime → Scored → Scored → Type 0
StandsBefore rt x y =
    (y.score ≤ x.score)
    × (x.score ≡ y.score → rt.collates_before x.entry.received_at y.entry.received_at ≡ false)

abbrev pub IsRanked : Runtime → List Scored → Type 0
IsRanked rt [] = Unit
IsRanked rt (x ∷ []) = Unit
IsRanked rt (x ∷ y ∷ ys) = StandsBefore rt x y × IsRanked rt (y ∷ ys)

precedes-StandsBefore :
    (rt : Runtime) (x y : Scored) → precedes rt y x ≡ false → StandsBefore rt x y
unfolding precedes
precedes-StandsBefore rt x y h = (ground arith, λ e. ground arith)

IsOrdered-IsRanked : (rt : Runtime) (xs : List Scored) → IsOrdered rt xs → IsRanked rt xs
IsOrdered-IsRanked rt [] h = tt
IsOrdered-IsRanked rt (x ∷ []) h = tt
IsOrdered-IsRanked rt (x ∷ y ∷ ys) (p, h) =
    (precedes-StandsBefore rt x y p, IsOrdered-IsRanked rt (y ∷ ys) h)

-- The results show, in order, the first hits of a ranking of all entries that scored: best score
-- first, and of equal scores the one received last first. It holds for every collation that is
-- asymmetric.
pub search_memory_index-IsRanked :
    (rt : Runtime) (index : MemoryIndex) (payload : MemorySearchPayload)
    → Asymmetric rt
    → (ranking : List Scored) × ((search_memory_index rt index payload).results
        ≡ map as_result (take payload.limit ranking))
      × IsRanked rt ranking
      × Perm ranking (search_hits rt index payload)
unfolding search_memory_index
search_memory_index-IsRanked rt index payload asym = (
  sort_hits rt (search_hits rt index payload),
  refl,
  IsOrdered-IsRanked rt _ (sort_hits-IsOrdered rt asym (search_hits rt index payload)),
  sort_hits-perm rt (search_hits rt index payload),
)

abbrev pub IsHit : MemorySearchResult → Type 0
IsHit r = (1 ≤ r.score) × (r.citation.id ≡ r.id)

keep_positive-All :
    (entry : MemoryIndexEntry) (c : Count) (rest : List Scored)
    → All (λ h. 1 ≤ h.score) rest
    → All (λ h. 1 ≤ h.score) (keep_positive entry c rest)
unfolding keep_positive
keep_positive-All entry (number zero) rest h = h
keep_positive-All entry (number (suc n)) rest h = (omega arith, h)
keep_positive-All entry text rest h = h

hits-All :
    (rt : Runtime) (terms : List Str) (query : Str) (entries : List MemoryIndexEntry)
    → All (λ h. 1 ≤ h.score) (hits rt terms query entries)
unfolding hits
hits-All rt terms query [] = tt
hits-All rt terms query (e ∷ es) = keep_positive-All e _ _ (hits-All rt terms query es)

insert_hit-All :
    (rt : Runtime) (x : Scored) (ys : List Scored)
    → 1 ≤ x.score
    → All (λ h. 1 ≤ h.score) ys
    → All (λ h. 1 ≤ h.score) (insert_hit rt x ys)
unfolding insert_hit
insert_hit-All rt x [] p h = (p, tt)
insert_hit-All rt x (y ∷ ys) p (q, h) = elim (Bool-cases (precedes rt y x)) [
  | inl e ↦ rw e (q, insert_hit-All rt x ys p h)
  | inr e ↦ rw e (p, (q, h))
]

sort_hits-All :
    (rt : Runtime) (xs : List Scored)
    → All (λ h. 1 ≤ h.score) xs
    → All (λ h. 1 ≤ h.score) (sort_hits rt xs)
unfolding sort_hits
sort_hits-All rt [] h = tt
sort_hits-All rt (x ∷ xs) (p, h) = insert_hit-All rt x _ p (sort_hits-All rt xs h)

map-as_result : (xs : List Scored) → All (λ h. 1 ≤ h.score) xs → All IsHit (map as_result xs)
unfolding as_result
map-as_result [] h = tt
map-as_result (x ∷ xs) (p, h) = ((p, refl), map-as_result xs h)

-- A response counts its results, holds at most as many as the limit asks for, and each result has
-- a score above 0 and a citation with its own id.
pub search_memory_index_bounds :
    (rt : Runtime) (index : MemoryIndex) (payload : MemorySearchPayload)
    → ((search_memory_index rt index payload).count
        ≡ length (search_memory_index rt index payload).results)
      × ((search_memory_index rt index payload).count ≤ payload.limit)
      × All IsHit (search_memory_index rt index payload).results
unfolding search_memory_index search_hits
search_memory_index_bounds rt index payload = (
  refl,
  rw
      (length-map {0, 0} as_result
        (take payload.limit (sort_hits rt (search_hits rt index payload))))
      (length-take payload.limit (sort_hits rt (search_hits rt index payload))),
  map-as_result _ (All-take _ payload.limit _ (sort_hits-All rt _ (hits-All rt _ _ index.entries))),
)
