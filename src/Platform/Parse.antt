-- ===== src/Platform/Parse.antt =====
-- lib/platform/validation.ts: the checks of texts, lists of texts and enumerations.
pub mod Laws
use frankai_online.Common.{
  ℕ, ◌+◌, Str, js, List, [], ◌∷◌, ◌++◌, map, false, not, if◌then◌else◌, is_empty, trim, ◌===◌, join,
  decimal, Option, none, some, Json, str, arr, obj, cons, Fields, items,
}
use frankai_online.Platform.Report.{Report, ◌>>=◌, ◌>>◌, pure, expect}

-- A text without content is reported, and stands for the empty text.
unfoldable pub required_string : Option Json → Str → Report Str
required_string (some (str s)) name =
    if is_empty (trim s)
    then ([], (name ++ js " must be a non-empty string") ∷ [])
    else (trim s, [])
required_string _ name = ([], (name ++ js " must be a non-empty string") ∷ [])

-- `${name}[${i}]`
abbrev pub at_index : Str → ℕ → Str
at_index name i = name ++ (js "[" ++ (decimal i ++ js "]"))

unfoldable pub string_items : Str → ℕ → List Json → Report (List Str)
string_items name i [] = pure []
string_items name i (v ∷ vs) = do
  s ← required_string (some v) (at_index name i)
  rest ← string_items name (i + 1) vs
  pure (if is_empty s then rest else s ∷ rest)

unfoldable pub string_list : Option Json → Str → Report (List Str)
string_list (some (arr vs)) name = do
  result ← string_items name 0 (items vs)
  expect (not (is_empty result)) (name ++ js " must include at least one item")
  pure result
string_list _ name = ([], (name ++ js " must be an array of strings") ∷ [])

-- The member of an enumeration that a value spells: `values.includes(value)`.
module _ {A : Type 0} (text : A → Str) where
  unfoldable pub spelled : List A → Option Json → Option A
  spelled [] v = none
  spelled (a ∷ as') (some (str s)) = if text a === s then some a else spelled as' (some (str s))
  spelled _ _ = none

  or_first : A → Option A → Str → Report A
  or_first default none message = (default, message ∷ [])
  or_first default (some a) message = (a, [])

  unfoldable pub one_of : List A → A → Option Json → Str → Report A
  unfolding or_first
  one_of values default v name =
      or_first default (spelled values v)
        (name ++ (js " must be one of " ++ join (js ", ") (map text values)))

-- The elements of an array of objects, each checked by `check`; others are reported and left out.
module _ {A : Type 0} (check : Str → Fields → Report A) where
  unfoldable pub parse_each : Str → ℕ → List Json → Report (List A)
  parse_each name i [] = pure []
  parse_each name i (obj fs ∷ vs) = do
    x ← check (at_index name i) fs
    rest ← parse_each name (i + 1) vs
    pure (x ∷ rest)
  parse_each name i (v ∷ vs) = do
    expect false (at_index name i ++ js " must be an object")
    parse_each name (i + 1) vs

  unfoldable pub parse_list : Option Json → Str → Str → Report (List A)
  parse_list (some (arr (cons v vs))) name none_message = parse_each name 0 (v ∷ items vs)
  parse_list _ name none_message = ([], none_message ∷ [])
