-- ===== src/Platform/Parse/Laws.antt =====
-- lib/platform/validation.ts: the checks of texts, lists and enumerations where they report nothing.
use frankai_online.Common.{
  ℕ, ◌+◌, Str, List, [], ◌∷◌, ◌++◌, map, false, not, ◌≡◌, refl, ap, inl, inr, is_empty, trim,
  IsClean, trim-IsClean, All, Bool-cases, arith, Option, some, Json, str, arr, obj, cons, Fields,
  items, of_items,
}
use frankai_online.Platform.Report.{Report, expect, append-eq-nil}
use frankai_online.Platform.Parse.{
  required_string, at_index, string_items, string_list, spelled, one_of, parse_each, parse_list,
}

pub required_string-IsClean :
    (v : Option Json) (name : Str)
    → (required_string v name).1 ≡ []
    → IsClean (required_string v name).0
unfolding required_string
required_string-IsClean (some (str s)) name h = elim (Bool-cases (is_empty (trim s))) [
  | inl e ↦ absurd (ground arith)
  | inr e ↦ rw e (trim-IsClean s e)
]
required_string-IsClean _ name h = absurd (cc)

pub required_string_of_IsClean :
    (s name : Str) → IsClean s → required_string (some (str s)) name ≡ (s, [])
unfolding required_string
required_string_of_IsClean s name h = rw h.trimmed (rw h.content)

string_items-IsClean :
    (name : Str) (i : ℕ) (vs : List Json)
    → (string_items name i vs).1 ≡ []
    → All IsClean (string_items name i vs).0
unfolding string_items
string_items-IsClean name i [] h = tt
string_items-IsClean name i (v ∷ vs) h =
    let (p, q) = append-eq-nil _ _ h in
    let (r, _) = append-eq-nil _ _ q in
    let clean = required_string-IsClean (some v) (at_index name i) p in
    rw clean.content (clean, string_items-IsClean name (i + 1) vs r)

string_items_of_IsClean :
    (name : Str) (i : ℕ) (ss : List Str)
    → All IsClean ss
    → string_items name i (map str ss) ≡ (ss, [])
unfolding string_items
string_items_of_IsClean name i [] h = refl
string_items_of_IsClean name i (s ∷ ss) (p, h) =
    rw (required_string_of_IsClean s (at_index name i) p)
      (rw (string_items_of_IsClean name (i + 1) ss h) (rw p.content))

-- A list of texts with content that is not empty.
pub record IsTexts (ss : List Str) : Type 0 where
  pub each : All IsClean ss
  pub filled : is_empty ss ≡ false

expect_filled :
    (ss : List Str) (message : Str)
    → (expect (not (is_empty ss)) message).1 ++ [] ≡ []
    → is_empty ss ≡ false
expect_filled ss message h = ground arith

pub string_list-IsTexts :
    (v : Option Json) (name : Str) → (string_list v name).1 ≡ [] → IsTexts (string_list v name).0
unfolding string_list
string_list-IsTexts (some (arr vs)) name h =
    let (p, q) = append-eq-nil _ _ h in
    record {
      each = string_items-IsClean name 0 (items vs) p;
      filled = expect_filled (string_items name 0 (items vs)).0 _ q;
    }
string_list-IsTexts _ name h = absurd (cc)

-- A list of texts as JSON.
abbrev pub texts : List Str → Json
texts ss = arr (of_items (map str ss))

pub items-of_items : (vs : List Json) → items (of_items vs) ≡ vs
items-of_items [] = refl
items-of_items (v ∷ vs) = ap (◌∷◌ v) (items-of_items vs)

pub string_list_of_IsTexts :
    (ss : List Str) (name : Str) → IsTexts ss → string_list (some (texts ss)) name ≡ (ss, [])
unfolding string_list
string_list_of_IsTexts ss name h =
    rw (items-of_items (map str ss)) (rw (string_items_of_IsClean name 0 ss h.each) (rw h.filled))

-- A value that spells a member is read as that member, with no error.
pub one_of-spelled :
    {A : Type 0} (text : A → Str) (values : List A) (default a : A) (v : Option Json) (name : Str)
    → spelled text values v ≡ some a
    → one_of text values default v name ≡ (a, [])
unfolding one_of
one_of-spelled text values default a v name h = rw h

module _ {A : Type 0} (check : Str → Fields → Report A) (P : A → Type 0)
    (sound : (at : Str) (fs : Fields) → (check at fs).1 ≡ [] → P (check at fs).0) where
  parse_each-All :
      (name : Str) (i : ℕ) (vs : List Json)
      → (parse_each check name i vs).1 ≡ []
      → All P (parse_each check name i vs).0
  unfolding parse_each
  parse_each-All name i [] h = tt
  parse_each-All name i (obj fs ∷ vs) h =
      let (p, q) = append-eq-nil _ _ h in
      let (r, _) = append-eq-nil _ _ q in
      (sound (at_index name i) fs p, parse_each-All name (i + 1) vs r)
  parse_each-All name i (v ∷ vs) h = absurd (cc)

  -- A list that is accepted has elements, each of the described kind.
  pub parse_list-All :
      (v : Option Json) (name none_message : Str)
      → (parse_list check v name none_message).1 ≡ []
      → All P (parse_list check v name none_message).0
        × (is_empty (parse_list check v name none_message).0 ≡ false)
  unfolding parse_list parse_each
  parse_list-All (some (arr (cons (obj fs) vs))) name none_message h =
      (parse_each-All name 0 (obj fs ∷ items vs) h, refl)
  parse_list-All (some (arr (cons v vs))) name none_message h = absurd (cc)
  parse_list-All _ name none_message h = absurd (cc)

module _ {A : Type 0} (check : Str → Fields → Report A) (P : A → Type 0) (encode : A → Fields)
    (complete : (at : Str) (a : A) → P a → check at (encode a) ≡ (a, [])) where
  parse_each_of_All :
      (name : Str) (i : ℕ) (xs : List A)
      → All P xs
      → parse_each check name i (map (λ x. obj (encode x)) xs) ≡ (xs, [])
  unfolding parse_each
  parse_each_of_All name i [] h = refl
  parse_each_of_All name i (x ∷ xs) (p, h) =
      rw (complete (at_index name i) x p) (rw (parse_each_of_All name (i + 1) xs h))

  -- An encoded list of such elements that is not empty is read as itself, with no error.
  pub parse_list_of_All :
      (xs : List A) (name none_message : Str)
      → All P xs
      → is_empty xs ≡ false
      → parse_list check (some (arr (of_items (map (λ x. obj (encode x)) xs)))) name none_message
        ≡ (xs, [])
  unfolding parse_list
  parse_list_of_All [] name none_message h e = absurd (cc)
  parse_list_of_All (x ∷ xs) name none_message h e =
      rw (items-of_items (map (λ y. obj (encode y)) xs)) (parse_each_of_All name 0 (x ∷ xs) h)
