-- ===== src/Memory/Access.antt =====
-- lib/memory/auth.ts: the bearer token and the bounded JSON body of the protected endpoints.
pub mod Guards
use frankai_online.Common.{
  ℕ, zero, suc, ◌*◌, ◌^◌, Str, js, List, [], ◌∷◌, Bool, false, not, ◌&&◌, ◌||◌, ltb, ◌==◌,
  if◌then◌else◌, length, is_empty, ◌===◌, starts_with, Runtime, Option, none, some, Json, Number,
  num_above, Reply, error_reply,
}

-- The parts of a request that these endpoints read.
pub record Request : Type 0 where
  pub authorization : Option Str
  pub content_length : Option Str
  pub body : Str

abbrev pub bytes_eq : List ℕ → List ℕ → Bool
bytes_eq a b = a === b

-- `constantTimeMatches`: equal lengths and equal bytes.
unfoldable pub constant_time_matches : Runtime → Str → Str → Bool
constant_time_matches rt received expected =
    if not (length (rt.utf8 received) == length (rt.utf8 expected))
    then false
    else bytes_eq (rt.utf8 received) (rt.utf8 expected)

-- `authorization.slice('Bearer '.length)`
unfoldable pub after : ℕ → Str → Str
after zero s = s
after (suc n) [] = []
after (suc n) (c ∷ s) = after n s

bearer : Runtime → Str → Option Str → Option Reply
bearer rt secret none = some (error_reply 401 (js "Unauthorised"))
bearer rt secret (some authorization) =
    if not (starts_with authorization (js "Bearer "))
    then some (error_reply 401 (js "Unauthorised"))
    else if not (constant_time_matches rt (after 7 authorization) secret)
    then some (error_reply 401 (js "Unauthorised"))
    else none

-- The refusal, or `none` where the token is accepted. An empty secret is no secret.
unfoldable pub require_bearer_token : Runtime → Request → Option Str → Option Reply
unfolding bearer
require_bearer_token rt request none = some (error_reply 503 (js "Endpoint is not configured"))
require_bearer_token rt request (some secret) =
    if is_empty secret
    then some (error_reply 503 (js "Endpoint is not configured"))
    else bearer rt secret request.authorization

abbrev pub max_bytes : ℕ
max_bytes = 1024 * 1024

plain : ℕ → Number
plain n = record { negative = false; magnitude = n; shift = 0 }

-- `Number.isFinite(configured)`, `configured <= 0` and the minimum with a megabyte
bounded : Option Number → ℕ → Number
bounded none fallback = plain fallback
bounded (some n) fallback =
    if n.negative || n.magnitude == 0
    then plain fallback
    else if num_above n max_bytes
    then plain max_bytes
    else n

-- `Number(undefined)` is not finite.
configured_number : Runtime → Option Str → Option Number
configured_number rt none = none
configured_number rt (some s) = rt.to_number s

unfoldable pub get_max_payload_bytes : Runtime → Option Str → ℕ → Number
unfolding bounded plain configured_number
get_max_payload_bytes rt configured fallback = bounded (configured_number rt configured) fallback

-- `a > b` for a number `b` that is not negative
unfoldable pub exceeds : Number → Number → Bool
exceeds a b = not a.negative && ltb (b.magnitude * 2 ^ a.shift) (a.magnitude * 2 ^ b.shift)

or_zero_text : Option Str → Str
or_zero_text none = js "0"
or_zero_text (some s) = if is_empty s then js "0" else s

declared_exceeds : Option Number → Number → Bool
declared_exceeds none limit = false
declared_exceeds (some n) limit = exceeds n limit

pub data Payload : Type 0 where
  payload : Json → Payload
  rejected : Reply → Payload

parsed_payload : Option Json → Payload
parsed_payload none = rejected (error_reply 400 (js "Invalid JSON payload"))
parsed_payload (some v) = payload v

unfoldable pub read_json_payload : Runtime → Request → Number → Payload
unfolding plain or_zero_text declared_exceeds parsed_payload
read_json_payload rt request max_payload_bytes =
    if declared_exceeds (rt.to_number (or_zero_text request.content_length)) max_payload_bytes
    then rejected (error_reply 413 (js "Payload too large"))
    else if exceeds (plain (length (rt.utf8 request.body))) max_payload_bytes
    then rejected (error_reply 413 (js "Payload too large"))
    else parsed_payload (rt.parse request.body)
