-- ===== src/Memory/Query.antt =====
-- lib/memory/index.ts: checking the payload of a search request.
pub mod Accepts
use frankai_online.Common.{
  ℕ, Str, js, [], ◌∷◌, ◌++◌, not, ◌||◌, ltb, if◌then◌else◌, length, is_empty, trim, str_mem, Option,
  none, some, Json, num, str, obj, Fields, end, field, get, is_integer, num_below, num_above,
  num_value, Checked, accepted, refused, ◌>>=◌,
}

abbrev pub max_query_length : ℕ
max_query_length = 256

abbrev pub max_limit : ℕ
max_limit = 25

abbrev pub default_limit : ℕ
default_limit = 5

-- `Required<MemorySearchPayload>`
pub record MemorySearchPayload : Type 0 where
  pub query : Str
  pub limit : ℕ

-- The loop over the keys stops at the first that is not allowed.
unfoldable pub unsupported_key : Fields → Option Str
unsupported_key end = none
unsupported_key (field key v fs) =
    if str_mem key (js "query" ∷ js "limit" ∷ []) then unsupported_key fs else some key

check_keys : Fields → Checked (Unit {0})
check_keys fs = elim (unsupported_key fs) [
  | none ↦ accepted tt
  | some key ↦ refused (js "Unsupported field: " ++ key)
]

check_query : Option Json → Checked Str
check_query (some (str s)) =
    if is_empty (trim s)
    then refused (js "query is required")
    else if ltb max_query_length (length (trim s))
    then refused (js "query must be 256 characters or fewer")
    else accepted (trim s)
check_query _ = refused (js "query is required")

check_limit : Option Json → Checked ℕ
check_limit none = accepted default_limit
check_limit (some (num n)) =
    if not (is_integer n) || num_below n 1 || num_above n max_limit
    then refused (js "limit must be an integer from 1 to 25")
    else accepted (num_value n)
check_limit (some _) = refused (js "limit must be an integer from 1 to 25")

unfoldable pub validate_memory_search_payload : Json → Checked MemorySearchPayload
unfolding check_keys check_query check_limit
validate_memory_search_payload (obj fs) = do
  _ ← check_keys fs
  query ← check_query (get fs (js "query"))
  limit ← check_limit (get fs (js "limit"))
  accepted (record { query = query; limit = limit })
validate_memory_search_payload _ = refused (js "Invalid payload")
