-- ===== src/Memory/Terms.antt =====
-- lib/memory/index.ts: the number of occurrences of each term, kept in a JavaScript object.
pub mod Counting
use frankai_online.Common.{
  ℕ, ◌+◌, Str, js, List, [], ◌∷◌, if◌then◌else◌, ◌===◌, Runtime, Option, none, some,
}
use frankai_online.Memory.Words.{tokenize}

-- A value read from or written to the object: a number, or a string that holds the source text of
-- the function `Object`. Such a string comes of adding to `terms['constructor']` before it is set,
-- a read that finds the inherited constructor, and it converts to no number.
pub data Count : Type 0 where
  number : ℕ → Count
  text : Count

abbrev pub Terms : Type 0
Terms = List (Str × Count)

unfoldable pub own_term : Terms → Str → Option Count
own_term [] key = none
own_term ((k, c) ∷ terms) key = if k === key then some c else own_term terms key

-- `terms[term]`: of the names that objects inherit, `constructor` alone can be a term, since the
-- others hold a capital or an underscore.
unfoldable pub read_term : Terms → Str → Option Count
read_term terms term = elim (own_term terms term) [
  | some c ↦ some c
  | none ↦ if term === js "constructor" then some text else none
]

-- `value || 0`
abbrev pub or_zero : Option Count → Count
or_zero none = number 0
or_zero (some c) = c

infixl 65 ◌⊕◌
unfoldable pub ◌⊕◌ : Count → Count → Count
number a ⊕ number b = number (a + b)
_ ⊕ _ = text

unfoldable pub set_term : Str → Count → Terms → Terms
set_term key c [] = (key, c) ∷ []
set_term key c ((k, d) ∷ terms) =
    if k === key then (k, c) ∷ terms else (k, d) ∷ set_term key c terms

unfoldable pub count_each : List Str → Terms → Terms
count_each [] terms = terms
count_each (term ∷ rest) terms =
    count_each rest (set_term term (or_zero (read_term terms term) ⊕ number 1) terms)

unfoldable pub count_terms : Runtime → Str → Terms
count_terms rt value = count_each (tokenize rt value) []
