-- ===== src/Memory/Terms/Counting.antt =====
-- lib/memory/index.ts: the counted terms beside the plain number of occurrences.
use frankai_online.Common.{
  ℕ, suc, ◌+◌, Str, js, List, [], ◌∷◌, ◌≡◌, ◌≢◌, refl, ap, ◌∙◌, inl, inr, if◌then◌else◌, ◌===◌,
  ===_iff, Runtime, Bool-cases, arith, some,
}
use frankai_online.Memory.Words.{tokenize}
use frankai_online.Memory.Terms.{
  Count, number, Terms, own_term, read_term, or_zero, ◌⊕◌, set_term, count_each, count_terms,
}

-- How often a term occurs in a list.
unfoldable pub occurrences : Str → List Str → ℕ
occurrences t [] = 0
occurrences t (w ∷ ws) = if w === t then suc (occurrences t ws) else occurrences t ws

pub own_term-set_term :
    (key t : Str) (c : Count) (terms : Terms)
    → own_term (set_term key c terms) t ≡ (if key === t then some c else own_term terms t)
unfolding own_term set_term
own_term-set_term key t c [] = refl
own_term-set_term key t c ((k, d) ∷ terms) =
    ground (arith, ===_iff k key, ===_iff k t, ===_iff key t, own_term-set_term key t c terms)

read_term-set_term :
    (key t : Str) (c : Count) (terms : Terms)
    → or_zero (read_term (set_term key c terms) t)
      ≡ (if key === t then c else or_zero (read_term terms t))
unfolding read_term
read_term-set_term key t c terms = ground (arith, own_term-set_term key t c terms)

count_each_lem :
    (t : Str) (ws : List Str) (terms : Terms) (n : ℕ)
    → or_zero (read_term terms t) ≡ number n
    → or_zero (read_term (count_each ws terms) t) ≡ number (n + occurrences t ws)
unfolding count_each occurrences ◌⊕◌
count_each_lem t [] terms n h = rw h (ap number (omega arith))
count_each_lem t (w ∷ ws) terms n h =
    let c = or_zero (read_term terms w) ⊕ number 1 in
    elim (Bool-cases (w === t)) [
      | inl e ↦
          let same : w ≡ t = (===_iff w t).0 e in
          let stored : or_zero (read_term (set_term w c terms) t) ≡ number (n + 1) =
            ground (arith, read_term-set_term w t c terms) in
          rw e (count_each_lem t ws (set_term w c terms) (n + 1) stored ∙ ap number (omega arith))
      | inr e ↦ rw e (
          count_each_lem t ws (set_term w c terms) n
            (ground (arith, read_term-set_term w t c terms)))
    ]

read_nothing : (t : Str) → (t ≢ js "constructor") → or_zero (read_term [] t) ≡ number 0
unfolding read_term own_term
read_nothing t h = ground (arith, ===_iff t (js "constructor"))

-- For every term but `constructor`, the number that the index keeps is the number of its
-- occurrences among the terms of the text.
pub count_terms_lem :
    (rt : Runtime) (value t : Str)
    → t ≢ js "constructor"
    → or_zero (read_term (count_terms rt value) t) ≡ number (occurrences t (tokenize rt value))
unfolding count_terms
count_terms_lem rt value t h =
    count_each_lem t (tokenize rt value) [] 0 (read_nothing t h) ∙ ap number (omega arith)
