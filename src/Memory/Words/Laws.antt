-- ===== src/Memory/Words/Laws.antt =====
-- lib/memory/index.ts: the terms of a text, and shortened texts.
use frankai_online.Common.{
  ℕ, ◌+◌, ◌-◌, ◌≤◌, ◌<◌, Str, js, List, [], ◌∷◌, Bool, true, false, ◌&&◌, ◌||◌, ◌≡◌, inl, inr, ◌==◌,
  length, take, filter, is_empty, is_space, trim, trim_start, trim_end, str_mem, Runtime, All,
  Bool-cases, length-append, length-take, length-trim, arith,
}
use frankai_online.Memory.Words.{
  stop_words, is_word, collapse, normalize_for_search, next_is_space, prepend, split_spaces,
  is_term, tokenize, truncate,
}

abbrev IsPlain : ℕ → Type 0
IsPlain c = (is_word c || c == 32) ≡ true

collapse-IsPlain : (in_run : Bool) (s : Str) → All IsPlain (collapse in_run s)
unfolding collapse
collapse-IsPlain in_run [] = tt
collapse-IsPlain in_run (c ∷ s) = ground (arith, collapse-IsPlain false s, collapse-IsPlain true s)

-- What holds of every code unit of a text holds of every code unit of its pieces.
module _ (P : ℕ → Type 0) where
  trim_start-All : (s : Str) → All P s → All P (trim_start s)
  unfolding trim_start
  trim_start-All [] h = tt
  trim_start-All (c ∷ s) (p, h) = elim (Bool-cases (is_space c)) [
    | inl e ↦ rw e (trim_start-All s h)
    | inr e ↦ rw e (p, h)
  ]

  trim_end-All : (s : Str) → All P s → All P (trim_end s)
  unfolding trim_end
  trim_end-All [] h = tt
  trim_end-All (c ∷ s) (p, h) = elim (Bool-cases (is_space c && is_empty (trim_end s))) [
    | inl e ↦ rw e tt
    | inr e ↦ rw e (p, trim_end-All s h)
  ]

  trim-All : (s : Str) → All P s → All P (trim s)
  unfolding trim
  trim-All s h = trim_end-All (trim_start s) (trim_start-All s h)

normalize_for_search-IsPlain :
    (rt : Runtime) (value : Str) → All IsPlain (normalize_for_search rt value)
unfolding normalize_for_search
normalize_for_search-IsPlain rt value = trim-All IsPlain _ (collapse-IsPlain false _)

abbrev IsWord : ℕ → Type 0
IsWord c = is_word c ≡ true

IsPlain-IsWord : (c : ℕ) → IsPlain c → is_space c ≡ false → IsWord c
unfolding is_space is_word
IsPlain-IsWord c p h = ground arith

prepend-IsWord :
    (c : ℕ) (ws : List Str) → IsWord c → All (All IsWord) ws → All (All IsWord) (prepend c ws)
unfolding prepend
prepend-IsWord c [] p h = ((p, tt), tt)
prepend-IsWord c (w ∷ ws) p (q, h) = ((p, q), h)

split_spaces-IsWord : (s : Str) → All IsPlain s → All (All IsWord) (split_spaces s)
unfolding split_spaces
split_spaces-IsWord [] h = (tt, tt)
split_spaces-IsWord (c ∷ s) (p, h) = elim (Bool-cases (is_space c)) [
  | inl e ↦ elim (Bool-cases (next_is_space s)) [
    | inl n ↦ rw (e, n) (split_spaces-IsWord s h)
    | inr n ↦ rw (e, n) (tt, split_spaces-IsWord s h)
  ]
  | inr e ↦
      rw e (prepend-IsWord c (split_spaces s) (IsPlain-IsWord c p e) (split_spaces-IsWord s h))
]

-- A search term: at least two letters or digits, and no stop word.
pub record IsTerm (term : Str) : Type 0 where
  pub words : All IsWord term
  pub long : 2 ≤ length term
  pub listed : str_mem term stop_words ≡ false

filter-IsTerm : (ws : List Str) → All (All IsWord) ws → All IsTerm (filter is_term ws)
unfolding is_term
filter-IsTerm [] h = tt
filter-IsTerm (w ∷ ws) (p, h) = elim (Bool-cases (is_term w)) [
  | inl e ↦
      rw e (record { words = p; long = ground arith; listed = ground arith }, filter-IsTerm ws h)
  | inr e ↦ rw e (filter-IsTerm ws h)
]

-- Whatever the text and the Unicode tables, every term that it yields consists of the letters
-- `a` to `z` and digits only, has at least two of them, and is no stop word.
pub tokenize-IsTerm : (rt : Runtime) (value : Str) → All IsTerm (tokenize rt value)
unfolding tokenize
tokenize-IsTerm rt value = elim (Bool-cases (is_empty (normalize_for_search rt value))) [
  | inl e ↦ rw e tt
  | inr e ↦ rw e (filter-IsTerm _ (split_spaces-IsWord _ (normalize_for_search-IsPlain rt value)))
]

-- A text is shortened to at most two characters over the limit, since the mark that replaces its
-- end has three characters; a text within the limit is left alone.
pub truncate_bounds :
    (value : Str) (max_chars : ℕ)
    → 0 < max_chars
    → (length (truncate value max_chars) ≤ max_chars + 2)
      × (length value ≤ max_chars → truncate value max_chars ≡ value)
unfolding truncate
truncate_bounds value max_chars h = ground (
  arith,
  length-append (trim (take (max_chars - 1) value)) (js "..."),
  length-trim (take (max_chars - 1) value),
  length-take (max_chars - 1) value,
)
