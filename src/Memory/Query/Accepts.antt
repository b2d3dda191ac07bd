-- ===== src/Memory/Query/Accepts.antt =====
-- lib/memory/index.ts: the search payloads that are accepted.
use frankai_online.Common.{
  ℕ, zero, suc, ◌*◌, ◌/◌, ◌%◌, ◌^◌, ◌≤◌, ◌<◌, Str, js, [], ◌∷◌, false, ◌≡◌, ◌↔◌, refl, length,
  is_empty, trim, arith, Option, none, some, Json, num, str, obj, Fields, get, is_integer,
  num_below, num_above, num_value, accepted, >>=-eq-accepted, ◌⊎◌, inl, inr, Bool, true, sym, ◌∙◌,
  Bool-cases, str_mem, ◌===◌, ===_iff, end, field,
}
use native.Mathlib.Nat.{pow-suc, div-add-mod}
use frankai_online.Memory.Query.{
  MemorySearchPayload, max_query_length, max_limit, unsupported_key, check_keys, check_query,
  check_limit, validate_memory_search_payload,
}

-- The limit that a payload asks for: the default, or a whole number from 1 to 25.
abbrev pub Asks : Option Json → ℕ → Type 0
Asks none limit = limit ≡ 5
Asks (some (num n)) limit =
    (n.negative ≡ false) × (n.magnitude ≡ limit * 2 ^ n.shift) × (1 ≤ limit) × (limit ≤ max_limit)
Asks (some v) limit = ⊥

-- Every key of an object is `query` or `limit`.
abbrev pub OnlyKnown : Fields → Type 0
OnlyKnown end = Unit
OnlyKnown (field k v fs) = ((k ≡ js "query") ⊎ (k ≡ js "limit")) × OnlyKnown fs

-- The description of a payload: an object with no key but `query` and `limit`, whose query is a
-- text with content, 256 code units long at most once it is trimmed.
pub record IsSearch (v : Json) (p : MemorySearchPayload) : Type 0 where
  pub fs : Fields
  pub is_object : v ≡ obj fs
  pub given : Str
  pub keys : OnlyKnown fs
  pub asked : get fs (js "query") ≡ some (str given)
  pub trimmed : p.query ≡ trim given
  pub content : 1 ≤ length p.query
  pub short : length p.query ≤ max_query_length
  pub limited : Asks (get fs (js "limit")) p.limit

pub pow_pos : (k : ℕ) → 0 < 2 ^ k
pow_pos zero = omega arith
pow_pos (suc k) = simp pow-suc (omega (arith, pow_pos k))

whole_quotient :
    (m d n : ℕ)
    → 0 < d
    → m % d ≡ 0
    → m / d ≡ n
    → 1 * d ≤ m
    → m ≤ 25 * d
    → (m ≡ n * d) × (1 ≤ n) × (n ≤ 25)
whole_quotient m d n p z q lo hi =
    let e : m ≡ n * d = grind (arith, div-add-mod m d) in (e, grind arith, grind arith)

quotient_whole : (m d n : ℕ) → 0 < d → m ≡ n * d → (m % d ≡ 0) × (m / d ≡ n)
quotient_whole m d n p e = rw e (grind arith, grind arith)

check_limit-Asks : (o : Option Json) (n : ℕ) → check_limit o ≡ accepted n → Asks o n
unfolding check_limit is_integer num_below num_above num_value
check_limit-Asks none n h = ground arith
check_limit-Asks (some (num m)) n h =
    ground (arith, pow_pos m.shift, whole_quotient m.magnitude (2 ^ m.shift) n)
check_limit-Asks (some v) n h = cc

times_bounds : (n d : ℕ) → 1 ≤ n → n ≤ 25 → (1 * d ≤ n * d) × (n * d ≤ 25 * d)
times_bounds n d p q = (grind arith, grind arith)

check_limit_of_Asks : (o : Option Json) (n : ℕ) → Asks o n → check_limit o ≡ accepted n
unfolding check_limit is_integer num_below num_above num_value
check_limit_of_Asks none n h = ground arith
check_limit_of_Asks (some (num m)) n h = ground (
  arith,
  pow_pos m.shift,
  quotient_whole m.magnitude (2 ^ m.shift) n,
  times_bounds n (2 ^ m.shift),
)
check_limit_of_Asks (some v) n h = absurd h

is_known : Str → Bool
is_known k = str_mem k (js "query" ∷ js "limit" ∷ [])

is_known-eq : (k : Str) → is_known k ≡ true → (k ≡ js "query") ⊎ (k ≡ js "limit")
unfolding is_known str_mem
is_known-eq k h = elim (Bool-cases (k === js "query")) [
  | inl e ↦ inl ((===_iff k (js "query")).0 e)
  | inr e ↦ inr ((===_iff k (js "limit")).0 (ground arith))
]

is_known_of_eq : (k : Str) → (k ≡ js "query") ⊎ (k ≡ js "limit") → is_known k ≡ true
unfolding is_known str_mem ◌===◌
is_known_of_eq k (inl e) = rw e refl
is_known_of_eq k (inr e) = rw e refl

unsupported_key-known :
    (k : Str) (v : Json) (fs : Fields)
    → is_known k ≡ true
    → unsupported_key (field k v fs) ≡ unsupported_key fs
unfolding is_known unsupported_key
unsupported_key-known k v fs h = rw h refl

unsupported_key-unknown :
    (k : Str) (v : Json) (fs : Fields)
    → is_known k ≡ false
    → unsupported_key (field k v fs) ≡ some k
unfolding is_known unsupported_key
unsupported_key-unknown k v fs h = rw h refl

unsupported_key-OnlyKnown : (fs : Fields) → unsupported_key fs ≡ none → OnlyKnown fs
unsupported_key-OnlyKnown end h = tt
unsupported_key-OnlyKnown (field k v fs) h = elim (Bool-cases (is_known k)) [
  | inl e ↦
      (is_known-eq k e, unsupported_key-OnlyKnown fs (sym (unsupported_key-known k v fs e) ∙ h))
  | inr e ↦ absurd (let c = sym (unsupported_key-unknown k v fs e) ∙ h in ground arith)
]

unsupported_key_of_OnlyKnown : (fs : Fields) → OnlyKnown fs → unsupported_key fs ≡ none
unfolding unsupported_key
unsupported_key_of_OnlyKnown end h = refl
unsupported_key_of_OnlyKnown (field k v fs) h =
    unsupported_key-known k v fs (is_known_of_eq k h.0) ∙ unsupported_key_of_OnlyKnown fs h.1

keys_of_check_keys :
    (fs : Fields) {u : Unit} → check_keys fs ≡ accepted u → unsupported_key fs ≡ none
unfolding check_keys
keys_of_check_keys fs h = ground arith

length-pos_iff : (s : Str) → (is_empty s ≡ false) ↔ (1 ≤ length s)
length-pos_iff [] = (λ h. absurd (cc), λ h. absurd (omega arith))
length-pos_iff (c ∷ s) = (λ h. omega arith, λ h. refl)

-- The part of `IsSearch` that speaks of the query.
abbrev IsQuery : Option Json → Str → Type 0
IsQuery o q =
    (s : Str) × (o ≡ some (str s)) × (q ≡ trim s) × (1 ≤ length q) × (length q ≤ max_query_length)

check_query-IsQuery : (o : Option Json) (q : Str) → check_query o ≡ accepted q → IsQuery o q
unfolding check_query
check_query-IsQuery (some (str s)) q h =
    (s, refl, ground arith, ground (arith, (length-pos_iff (trim s)).0), ground arith)
check_query-IsQuery _ q h = cc

check_query_of_IsQuery : (o : Option Json) (q : Str) → IsQuery o q → check_query o ≡ accepted q
unfolding check_query
check_query_of_IsQuery o q (s, e, t, lo, hi) =
    let full : is_empty (trim s) ≡ false = (length-pos_iff (trim s)).1 (rw t at lo) in
    rw e (ground arith)

sound :
    (fs : Fields) (p : MemorySearchPayload)
    → validate_memory_search_payload (obj fs) ≡ accepted p
    → IsSearch (obj fs) p
unfolding validate_memory_search_payload
sound fs p h =
    let (u, keys, h1) = >>=-eq-accepted (check_keys fs) _ h in
    let (query, asked, h2) = >>=-eq-accepted (check_query (get fs (js "query"))) _ h1 in
    let (limit, limited, h3) = >>=-eq-accepted (check_limit (get fs (js "limit"))) _ h2 in
    let same : query ≡ p.query = ground arith in
    let same_limit : limit ≡ p.limit = ground arith in
    let (s, e, t, lo, hi) = check_query-IsQuery _ query asked in
    record {
      fs = fs;
      is_object = refl;
      given = s;
      keys = unsupported_key-OnlyKnown fs (keys_of_check_keys fs keys);
      asked = e;
      trimmed = rw (← same) t;
      content = rw (← same) lo;
      short = rw (← same) hi;
      limited = rw (← same_limit) (check_limit-Asks _ limit limited);
    }

complete :
    (v : Json) (p : MemorySearchPayload)
    → IsSearch v p
    → validate_memory_search_payload v ≡ accepted p
unfolding validate_memory_search_payload
complete v p d = rw d.is_object (
    rw (unsupported_key_of_OnlyKnown d.fs d.keys, check_keys)
      (rw (check_query_of_IsQuery _ p.query (d.given, d.asked, d.trimmed, d.content, d.short))
        (rw (check_limit_of_Asks _ p.limit d.limited))))

object_of_accepted :
    (v : Json) (p : MemorySearchPayload)
    → validate_memory_search_payload v ≡ accepted p
    → IsSearch v p
unfolding validate_memory_search_payload
object_of_accepted (obj fs) p h = sound fs p h
object_of_accepted _ p h = cc

-- A value is accepted as a search with a query and a limit exactly when it is an object with no key
-- but `query` and `limit`, whose query is a text with content, 256 code units long at most once it
-- is trimmed, and that trimmed text is the query and the limit is the one it asks for, from 1 to 25,
-- or 5 where it asks for none.
pub validate_memory_search_payload_iff :
    (v : Json) (p : MemorySearchPayload)
    → (validate_memory_search_payload v ≡ accepted p) ↔ IsSearch v p
validate_memory_search_payload_iff v p = (object_of_accepted v p, complete v p)
