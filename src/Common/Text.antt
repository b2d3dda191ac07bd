-- ===== src/Common/Text.antt =====
-- JavaScript strings as lists of UTF-16 code units: equality, `trim`, `slice`, `join`,
-- `startsWith`, and decimal numerals of array indices.
use Prim.Native.Nat.{ℕ, zero, suc, ◌+◌, ◌/◌, ◌%◌, ◌≤◌}
use Prim.Native.Char.{code}
use Prim.Native.String.{String}
use mathlib.Core.Path.{◌≡◌, refl, ap, ap₂, ◌∙◌}
use mathlib.Core.Logic.{◌↔◌, inl, inr}
use mathlib.Core.Bool.{Bool, true, false, ◌&&◌, ◌||◌}
use mathlib.Core.List.{List, [], ◌∷◌, ◌++◌}
use native.Mathlib.Omega.{arith}
use frankai_online.Common.Tests.{ltb, leb, ◌==◌, if◌then◌else◌, Bool-cases}
use frankai_online.Common.Lists.{length, is_empty}

abbrev pub Str : Type 0
Str = List ℕ

-- The code units of a literal; the program's literals are ASCII.
abbrev pub js : String → Str
js String.[] = []
js (String.◌∷◌ c s) = code c ∷ js s

infix 50 ◌===◌
unfoldable pub ◌===◌ : Str → Str → Bool
[] === [] = true
(a ∷ s) === (b ∷ t) = (a == b) && (s === t)
_ === _ = false

pub ===_refl : (s : Str) → (s === s) ≡ true
unfolding ◌===◌
===_refl [] = refl
===_refl (a ∷ s) = ground (arith, ===_refl s)

eq_of_=== : (s t : Str) → (s === t) ≡ true → s ≡ t
unfolding ◌===◌
eq_of_=== [] [] h = refl
eq_of_=== [] (b ∷ t) h = cc
eq_of_=== (a ∷ s) [] h = cc
eq_of_=== (a ∷ s) (b ∷ t) h = ap₂ (◌∷◌) (ground arith) (eq_of_=== s t (ground arith))

pub ===_iff : (s t : Str) → ((s === t) ≡ true) ↔ (s ≡ t)
===_iff s t = (eq_of_=== s t, λ e. rw e (===_refl t))

unfoldable pub str_mem : Str → List Str → Bool
str_mem s [] = false
str_mem s (t ∷ ts) = (s === t) || str_mem s ts

-- The white space and line terminators that `trim` and `\s` know.
unfoldable pub is_space : ℕ → Bool
is_space c =
    (leb 9 c && leb c 13)
    || (c == 32)
    || (c == 160)
    || (c == 0x1680)
    || (leb 0x2000 c && leb c 0x200a)
    || (c == 0x2028)
    || (c == 0x2029)
    || (c == 0x202f)
    || (c == 0x205f)
    || (c == 0x3000)
    || (c == 0xfeff)

unfoldable pub trim_start : Str → Str
trim_start [] = []
trim_start (c ∷ s) = if is_space c then trim_start s else c ∷ s

unfoldable pub trim_end : Str → Str
trim_end [] = []
trim_end (c ∷ s) = let rest = trim_end s in if is_space c && is_empty rest then [] else c ∷ rest

unfoldable pub trim : Str → Str
trim s = trim_end (trim_start s)

abbrev pub IsTrimmed : Str → Type 0
IsTrimmed s = trim s ≡ s

abbrev StartsClean : Str → Type 0
StartsClean [] = Unit
StartsClean (c ∷ s) = is_space c ≡ false

trim_start-StartsClean : (s : Str) → StartsClean (trim_start s)
unfolding trim_start
trim_start-StartsClean [] = tt
trim_start-StartsClean (c ∷ s) = elim (Bool-cases (is_space c)) [
  | inl e ↦ rw e (trim_start-StartsClean s)
  | inr e ↦ rw e e
]

trim_start_of_StartsClean : (s : Str) → StartsClean s → trim_start s ≡ s
unfolding trim_start
trim_start_of_StartsClean [] h = refl
trim_start_of_StartsClean (c ∷ s) h = rw h

trim_end-StartsClean : (s : Str) → StartsClean s → StartsClean (trim_end s)
unfolding trim_end
trim_end-StartsClean [] h = tt
trim_end-StartsClean (c ∷ s) h = rw h h

trim_end_idempotent : (s : Str) → trim_end (trim_end s) ≡ trim_end s
unfolding trim_end
trim_end_idempotent [] = refl
trim_end_idempotent (c ∷ s) = elim (Bool-cases (is_space c && is_empty (trim_end s))) [
  | inl e ↦ rw e
  | inr e ↦ rw e (rw (trim_end_idempotent s) (rw e))
]

-- Trimming twice is trimming once.
pub trim_idempotent : (s : Str) → trim (trim s) ≡ trim s
unfolding trim
trim_idempotent s =
    ap trim_end
      (trim_start_of_StartsClean _ (trim_end-StartsClean (trim_start s) (trim_start-StartsClean s)))
    ∙ trim_end_idempotent (trim_start s)

pub trim-IsTrimmed : (s : Str) → IsTrimmed (trim s)
trim-IsTrimmed s = trim_idempotent s

length-trim_start : (s : Str) → length (trim_start s) ≤ length s
unfolding trim_start
length-trim_start [] = omega arith
length-trim_start (c ∷ s) = ground (arith, length-trim_start s)

length-trim_end : (s : Str) → length (trim_end s) ≤ length s
unfolding trim_end
length-trim_end [] = omega arith
length-trim_end (c ∷ s) = ground (arith, length-trim_end s)

pub length-trim : (s : Str) → length (trim s) ≤ length s
unfolding trim
length-trim s = omega (arith, length-trim_start s, length-trim_end (trim_start s))

-- `parts.join(sep)`
unfoldable pub join : Str → List Str → Str
join sep [] = []
join sep (p ∷ []) = p
join sep (p ∷ q ∷ ps) = p ++ (sep ++ join sep (q ∷ ps))

-- `s.startsWith(prefix)`
unfoldable pub starts_with : Str → Str → Bool
starts_with s [] = true
starts_with [] (p ∷ ps) = false
starts_with (c ∷ s) (p ∷ ps) = (c == p) && starts_with s ps

-- `s.includes(part)`
unfoldable pub includes : Str → Str → Bool
unfolding starts_with
includes [] part = starts_with [] part
includes (c ∷ s) part = starts_with (c ∷ s) part || includes s part

-- The decimal numeral of an array index; `n + 1` rounds are enough, since each drops a digit.
decimal_from : ℕ → ℕ → Str → Str
decimal_from zero n out = out
decimal_from (suc fuel) n out =
    let rest = decimal_from fuel (n / 10) ((48 + n % 10) ∷ out) in
    if ltb n 10 then (48 + n) ∷ out else rest

unfoldable pub decimal : ℕ → Str
unfolding decimal_from
decimal n = decimal_from (suc n) n []

decimal_tests : (decimal 0 ≡ js "0") × (decimal 1207 ≡ js "1207")
unfolding decimal
decimal_tests = (refl, refl)

trim_tests : (trim (js "  a b ") ≡ js "a b") × (trim (js " \n ") ≡ [])
unfolding trim trim_start trim_end is_space
trim_tests = (refl, refl)

-- `s.split(sep)`, for a separator of one code unit
unfoldable pub add_to_first : ℕ → List Str → List Str
add_to_first c [] = (c ∷ []) ∷ []
add_to_first c (w ∷ ws) = (c ∷ w) ∷ ws

unfoldable pub split_on : ℕ → Str → List Str
unfolding add_to_first
split_on sep [] = [] ∷ []
split_on sep (c ∷ s) =
    let rest = split_on sep s in if c == sep then [] ∷ rest else add_to_first c rest

-- A trimmed text with content.
pub record IsClean (s : Str) : Type 0 where
  pub trimmed : IsTrimmed s
  pub content : is_empty s ≡ false

pub trim-IsClean : (s : Str) → is_empty (trim s) ≡ false → IsClean (trim s)
trim-IsClean s h = record { trimmed = trim-IsTrimmed s; content = h }
