-- ===== src/Memory/Words.antt =====
-- lib/memory/index.ts: normalising text, splitting it into terms, and shortening it.
pub mod Laws
use frankai_online.Common.{
  ℕ, ◌-◌, Str, js, List, [], ◌∷◌, ◌++◌, Bool, true, false, not, ◌&&◌, ◌||◌, leb, ltb, if◌then◌else◌,
  length, take, filter, is_empty, is_space, trim, str_mem, Runtime,
}

abbrev pub stop_words : List Str
stop_words =
    js "a"
    ∷ js "an"
    ∷ js "and"
    ∷ js "are"
    ∷ js "as"
    ∷ js "at"
    ∷ js "be"
    ∷ js "by"
    ∷ js "for"
    ∷ js "from"
    ∷ js "in"
    ∷ js "is"
    ∷ js "it"
    ∷ js "of"
    ∷ js "on"
    ∷ js "or"
    ∷ js "the"
    ∷ js "to"
    ∷ js "was"
    ∷ js "with"
    ∷ []

-- `[a-z0-9]`
unfoldable pub is_word : ℕ → Bool
is_word c = (leb 97 c && leb c 122) || (leb 48 c && leb c 57)

-- `[\u0300-\u036f]`
unfoldable pub is_mark : ℕ → Bool
is_mark c = leb 0x300 c && leb c 0x36f

-- `replace(/[^a-z0-9]+/g, ' ')`; the flag says that the run has been written already.
unfoldable pub collapse : Bool → Str → Str
collapse in_run [] = []
collapse in_run (c ∷ s) =
    let word = c ∷ collapse false s in
    let gap = collapse true s in if is_word c then word else if in_run then gap else 32 ∷ gap

unfoldable pub normalize_for_search : Runtime → Str → Str
unfolding is_mark
normalize_for_search rt value =
    trim (collapse false (filter (λ c. not (is_mark c)) (rt.nfkd (rt.lower value))))

next_is_space : Str → Bool
next_is_space [] = false
next_is_space (c ∷ _) = is_space c

prepend : ℕ → List Str → List Str
prepend c [] = (c ∷ []) ∷ []
prepend c (w ∷ ws) = (c ∷ w) ∷ ws

-- `split(/\s+/)`
unfoldable pub split_spaces : Str → List Str
unfolding prepend next_is_space
split_spaces [] = [] ∷ []
split_spaces (c ∷ s) =
    let rest = split_spaces s in
    if is_space c then if next_is_space s then rest else [] ∷ rest else prepend c rest

unfoldable pub is_term : Str → Bool
is_term term = ltb 1 (length term) && not (str_mem term stop_words)

unfoldable pub tokenize : Runtime → Str → List Str
tokenize rt value =
    let normalized = normalize_for_search rt value in
    if is_empty normalized then [] else filter is_term (split_spaces normalized)

unfoldable pub truncate : Str → ℕ → Str
truncate value max_chars =
    if leb (length value) max_chars then value else trim (take (max_chars - 1) value) ++ js "..."
